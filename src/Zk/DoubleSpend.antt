-- ===== src/Zk/DoubleSpend.antt =====
-- What the nullifiers of the pool are good for, and what they are not: a spent nullifier stays
-- spent whatever happens next, and nothing ties a nullifier or a value to the note that is spent.
use zeno_final_code.Common.{subst, ℕ, true, false, ◌≡◌, refl, inl, inr, List, [], ◌∷◌, arith}
use zeno_final_code.Common.Results.{ok, err, Result-cases}
use zeno_final_code.Hash.{Hash32, Digests, bytes_eq_refl}
use zeno_final_code.Zk.{nullifier_already_spent, insert}
use zeno_final_code.Zk.Pool.{
  ShieldRequest, ShieldedTransferProof, UnshieldRequest, ShieldedPool, is_spent, shield, transfer,
  unshield,
}

-- A request to the pool, and the pool after it.
pub data Request : Type 0 where
  shielding : ShieldRequest → Request
  transferring : ShieldedTransferProof → Request
  unshielding : UnshieldRequest → Request

module _ (d : Digests) where
  abbrev pub serve : Request → ShieldedPool → ShieldedPool
  serve (shielding r) pool = (shield d r pool).1
  serve (transferring r) pool = (transfer d r pool).1
  serve (unshielding r) pool = (unshield d r pool).1

  abbrev pub serve_all : List Request → ShieldedPool → ShieldedPool
  serve_all [] pool = pool
  serve_all (r ∷ rs) pool = serve_all rs (serve r pool)

  is_spent-serve :
      (n : Hash32) (r : Request) (pool : ShieldedPool)
      → is_spent n pool ≡ true
      → is_spent n (serve r pool) ≡ true
  unfolding shield transfer unshield
  is_spent-serve n (shielding r) pool h = elim (Result-cases (insert d r.commitment pool.tree).0) [
    | inl (e, q) ↦ rw (q, serve) h
    | inr (i, q) ↦ rw (q, serve) h
  ]
  is_spent-serve n (transferring r) pool h = ground arith
  is_spent-serve n (unshielding r) pool h = ground arith

  is_spent-serve_all :
      (n : Hash32) (rs : List Request) (pool : ShieldedPool)
      → is_spent n pool ≡ true
      → is_spent n (serve_all rs pool) ≡ true
  is_spent-serve_all n [] pool h = h
  is_spent-serve_all n (r ∷ rs) pool h =
      is_spent-serve_all n rs (serve r pool) (is_spent-serve n r pool h)

  -- A successful request spends its nullifier.
  is_spent-transfer :
      (r : ShieldedTransferProof) (pool : ShieldedPool) (i : ℕ)
      → (transfer d r pool).0 ≡ ok i
      → is_spent r.nullifier (transfer d r pool).1 ≡ true
  unfolding transfer
  is_spent-transfer r pool i h = ground (arith, bytes_eq_refl r.nullifier)

  is_spent-unshield :
      (r : UnshieldRequest) (pool : ShieldedPool)
      → (unshield d r pool).0 ≡ ok tt
      → is_spent r.nullifier (unshield d r pool).1 ≡ true
  unfolding unshield
  is_spent-unshield r pool h = ground (arith, bytes_eq_refl r.nullifier)

  -- The nullifier of a request.
  abbrev pub Spends : Hash32 → Request → ShieldedPool → Type 0
  Spends n (shielding r) pool = ⊥
  Spends n (transferring r) pool = (r.nullifier ≡ n) × ((i : ℕ) × ((transfer d r pool).0 ≡ ok i))
  Spends n (unshielding r) pool = (r.nullifier ≡ n) × ((unshield d r pool).0 ≡ ok tt)

  abbrev pub IsRefused : Hash32 → Request → ShieldedPool → Type 0
  IsRefused n (shielding r) pool = Unit
  IsRefused n (transferring r) pool =
      r.nullifier ≡ n → transfer d r pool ≡ (err nullifier_already_spent, pool)
  IsRefused n (unshielding r) pool =
      r.nullifier ≡ n → unshield d r pool ≡ (err nullifier_already_spent, pool)

  spent-IsRefused :
      (n : Hash32) (r : Request) (pool : ShieldedPool) → is_spent n pool ≡ true → IsRefused n r pool
  unfolding transfer unshield
  spent-IsRefused n (shielding r) pool h = tt
  spent-IsRefused n (transferring r) pool h = λ e. rw (e, h) refl
  spent-IsRefused n (unshielding r) pool h = λ e. rw (e, h) refl

  Spends-is_spent :
      (n : Hash32) (r : Request) (pool : ShieldedPool)
      → Spends n r pool
      → is_spent n (serve r pool) ≡ true
  Spends-is_spent n (shielding r) pool h = absurd h
  Spends-is_spent n (transferring r) pool (e, (i, q)) =
      subst (λ m. is_spent m (transfer d r pool).1 ≡ true) e (is_spent-transfer r pool i q)
  Spends-is_spent n (unshielding r) pool (e, q) =
      subst (λ m. is_spent m (unshield d r pool).1 ≡ true) e (is_spent-unshield r pool q)

  -- A nullifier is spent at most once: after a transfer or an unshielding that succeeds, and any
  -- further requests, every transfer and every unshielding with its nullifier is refused as already
  -- spent and leaves the pool as it was.
  pub serve-IsRefused :
      (n : Hash32) (first : Request) (between : List Request) (again : Request)
      (pool : ShieldedPool)
      → Spends n first pool
      → IsRefused n again (serve_all between (serve first pool))
  serve-IsRefused n first between again pool h =
      spent-IsRefused n again _
        (is_spent-serve_all n between (serve first pool) (Spends-is_spent n first pool h))

  -- After an unshielding that succeeds, another one with the same Merkle proof succeeds, whatever
  -- its value, as long as its nullifier is not spent: neither the nullifier nor the value is compared
  -- with the note that the proof is about.
  pub unshield-unshield :
      (r s : UnshieldRequest) (pool : ShieldedPool)
      → (unshield d r pool).0 ≡ ok tt
      → s.merkle_proof ≡ r.merkle_proof
      → s.merkle_root ≡ r.merkle_root
      → is_spent s.nullifier (unshield d r pool).1 ≡ false
      → (unshield d s (unshield d r pool).1).0 ≡ ok tt
  unfolding unshield
  unshield-unshield r s pool h p q fresh = ground arith
