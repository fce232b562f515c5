-- ===== src/Storage/Blocks.antt =====
-- The two indices of the blocks: committing a block and pruning old ones keep them consistent.
use zeno_final_code.Common.{
  ℕ, ◌≡◌, ◌≢◌, refl, sym, ◌∙◌, inl, inr, ◌&&◌, is_some, none, some, List, [], ◌∷◌, any, ltb, ◌==◌,
  arith, if◌then◌else◌, Bool-cases, Option-cases,
}
use zeno_final_code.TreeMap
use zeno_final_code.TreeMap.{
  TreeMap, nat_key, get-insert, get-insert_self, get-insert_ne, get-remove, get-remove_ne,
}
use zeno_final_code.Types.{Block}
use zeno_final_code.Execution.{Accounts}
use zeno_final_code.Storage.{
  FinalizedBlock, Store, atomic_commit_block, prune_key, prune_keys, prune_blocks_below, keys_below,
  get_block_by_height, get_block_by_hash,
}

module _ (hash_of : Block → ℕ) where
  -- Every block stands at its own height, and is found by its hash, too.
  abbrev pub IsIndexed : Store → Type 0
  IsIndexed store =
      (h : ℕ) (b : FinalizedBlock)
      → get_block_by_height h store ≡ some b
      → (b.block.header.height ≡ h) × (get_block_by_hash (hash_of b.block) store ≡ some b)

  module _
      (heights : (x y : Block) → hash_of x ≡ hash_of y → x.header.height ≡ y.header.height) where
    -- Where blocks of different heights have different hashes, a block that is committed is found at
    -- its height and by its hash, every other height has the block it had, and the two indices stay
    -- consistent.
    pub atomic_commit_block_lem :
        (b : FinalizedBlock) (accounts : Accounts) (store : Store)
        → IsIndexed store
        → let after = atomic_commit_block hash_of b accounts store in
          IsIndexed after
          × (get_block_by_height b.block.header.height after ≡ some b)
          × (get_block_by_hash (hash_of b.block) after ≡ some b)
          × ((h : ℕ)
              → h ≢ b.block.header.height
              → get_block_by_height h after ≡ get_block_by_height h store)
    unfolding atomic_commit_block
    atomic_commit_block_lem b accounts store w =
        let at = b.block.header.height in
        let hash = hash_of b.block in
        (
          λ h b' e. elim (Bool-cases (h == at)) [
            | inl same ↦
                let known : b' ≡ b = ground (arith, get-insert at h b store.blocks_by_height) in
                rw known (ground arith, get-insert_self hash b store.blocks_by_hash)
            | inr other ↦
                let before : get_block_by_height h store ≡ some b' =
                  ground (arith, get-insert at h b store.blocks_by_height) in
                let apart : hash_of b'.block ≢ hash =
                  λ q. ground (arith, w h b' before, heights b'.block b.block q) in
                (
                  (w h b' before).0,
                  get-insert_ne hash (hash_of b'.block) b store.blocks_by_hash apart
                      ∙ (w h b' before).1,
                )
          ],
          get-insert_self at b store.blocks_by_height,
          get-insert_self hash b store.blocks_by_hash,
          λ h n. get-insert_ne at h b store.blocks_by_height n,
        )

    get-prune_key :
        (k : ℕ) (store : Store) (h : ℕ)
        → get_block_by_height h (prune_key hash_of k store)
          ≡ (if k == h then none else get_block_by_height h store)
    unfolding prune_key
    get-prune_key k store h = elim (Option-cases (TreeMap.get k store.blocks_by_height)) [
      | inl e ↦ rw (e, prune_key) (ground (arith, e))
      | inr (b, e) ↦ rw (e, prune_key) (ground (arith, get-remove k h store.blocks_by_height))
    ]

    get-prune_keys :
        (keys : List ℕ) (store : Store) (h : ℕ)
        → get_block_by_height h (prune_keys hash_of keys store)
          ≡ (if any (λ k. k == h) keys then none else get_block_by_height h store)
    unfolding prune_keys
    get-prune_keys [] store h = refl
    get-prune_keys (k ∷ keys) store h =
        get-prune_keys keys (prune_key hash_of k store) h ∙ ground (arith, get-prune_key k store h)

    prune_key-IsIndexed :
        (k : ℕ) (store : Store) → IsIndexed store → IsIndexed (prune_key hash_of k store)
    unfolding prune_key
    prune_key-IsIndexed k store w = λ h b' e.
        let found = sym (get-prune_key k store h) ∙ e in
        let before : get_block_by_height h store ≡ some b' = ground arith in
        let other : k ≢ h = λ q. ground arith in
        elim (Option-cases (TreeMap.get k store.blocks_by_height)) [
          | inl q ↦ rw (q, prune_key) (w h b' before)
          | inr (b, q) ↦
              let apart : hash_of b'.block ≢ hash_of b.block = λ same.
                other (sym (w k b q).0 ∙ sym (heights b'.block b.block same) ∙ (w h b' before).0) in
              rw (q, prune_key)
                (
                  (w h b' before).0,
                  get-remove_ne (hash_of b.block) (hash_of b'.block) store.blocks_by_hash apart
                      ∙ (w h b' before).1,
                )
        ]

    prune_keys-IsIndexed :
        (keys : List ℕ) (store : Store)
        → IsIndexed store
        → IsIndexed (prune_keys hash_of keys store)
    unfolding prune_keys
    prune_keys-IsIndexed [] store w = w
    prune_keys-IsIndexed (k ∷ keys) store w =
        prune_keys-IsIndexed keys (prune_key hash_of k store) (prune_key-IsIndexed k store w)

    Member-keys_below :
        (height h : ℕ) (m : TreeMap ℕ FinalizedBlock)
        → any (λ k. k == h) (keys_below height m) ≡ (ltb h height && is_some (TreeMap.get h m))
    unfolding TreeMap.get
    Member-keys_below height h [] = ground arith
    Member-keys_below height h ((k, b) ∷ m) = ground (arith, Member-keys_below height h m)

    -- Where blocks of different heights have different hashes, pruning a store with consistent indices
    -- keeps them consistent, removes the block of every height below the given one and leaves every
    -- other height as it was.
    pub prune_blocks_below_lem :
        (height : ℕ) (store : Store)
        → IsIndexed store
        → let after = (prune_blocks_below hash_of height store).1 in
          IsIndexed after
          × ((h : ℕ)
              → get_block_by_height h after
                ≡ (if ltb h height then none else get_block_by_height h store))
    unfolding prune_blocks_below
    prune_blocks_below_lem height store w =
        let keys = keys_below height store.blocks_by_height in
        (
          prune_keys-IsIndexed keys store w,
          λ h.
              get-prune_keys keys store h
              ∙ ground (arith, Member-keys_below height h store.blocks_by_height),
        )
