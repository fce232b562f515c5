-- ===== src/Smt/Tests.antt =====
-- The commitment to a small map of accounts, with digests to run it on.
use zeno_final_code.Smt.Soundness.{verify_sound, collect_proof-AreDigests, entries-AreDigests}
use zeno_final_code.Common.{◌⊎◌, map, arith, ℕ, ◌≡◌, refl, true, [], ◌∷◌}
use zeno_final_code.Smt.{AccountProof, sparse_depth, root, prove, verify, path_key, bit_at, entry}
use zeno_final_code.Hash.{Bytes, to_be_bytes}
use zeno_final_code.Hash.Tests.{toy_digests}
use zeno_final_code.TreeMap.{TreeMap, nat_key}
use zeno_final_code.Types.{Account}
use zeno_final_code.Smt.Completeness.{NoClash, prove-verify}
use zeno_final_code.Smt.Shadow.{root-shadowed}
use zeno_final_code.Smt.Paths.{same_path}
use zeno_final_code.TreeMap
use zeno_final_code.Hash.Merkle.{AreDigests}
use zeno_final_code.Hash.Collision.{CollisionOf}
use zeno_final_code.Smt.Binding.{IsLeafCodec, verify_inputs}

abbrev toy_leaf : ℕ → Account → Bytes
toy_leaf address a = 1 ∷ address ∷ a.nonce ∷ a.balance ∷ []

abbrev rich : Account
rich = record { nonce = 3; balance = 100 }

abbrev poor : Account
poor = record { nonce = 0; balance = 1 }

abbrev two_accounts : TreeMap ℕ Account
two_accounts = (1, rich) ∷ (2, poor) ∷ []

two_accounts-NoClash : NoClash toy_digests toy_leaf 2 two_accounts
unfolding path_key bit_at same_path to_be_bytes
two_accounts-NoClash = ((λ h. absurd (cc)), ((λ h. refl), tt))

prove-verify_example :
    verify toy_digests toy_leaf
      (prove toy_digests toy_leaf two_accounts 2)
      (root toy_digests toy_leaf two_accounts)
    ≡ true
prove-verify_example = prove-verify toy_digests toy_leaf two_accounts 2 two_accounts-NoClash

-- The digests map 1 and 290 to one path.
root-shadowed_example :
    root toy_digests toy_leaf ((1, rich) ∷ (290, poor) ∷ [])
    ≡ root toy_digests toy_leaf ((1, rich) ∷ (290, rich) ∷ [])
unfolding path_key bit_at same_path to_be_bytes
root-shadowed_example = root-shadowed toy_digests toy_leaf [] [] [] 1 290 rich poor rich refl

toy_leaf-IsLeafCodec : IsLeafCodec toy_leaf
toy_leaf-IsLeafCodec = record {
  injective = λ address x y h. ground arith;
  not_empty_leaf = λ address x h. ground arith;
}

abbrev proof : AccountProof
proof = prove toy_digests toy_leaf two_accounts 2

proof-AreDigests : AreDigests proof.siblings
unfolding prove
proof-AreDigests =
    collect_proof-AreDigests toy_digests toy_leaf sparse_depth
      (map (entry toy_digests toy_leaf) two_accounts) (path_key toy_digests 2)
      (entries-AreDigests toy_digests toy_leaf two_accounts)

verify_sound_example :
    (proof.account ≡ TreeMap.get 2 two_accounts)
    ⊎ CollisionOf toy_digests
        (verify_inputs toy_digests toy_leaf proof)
        (verify_inputs toy_digests toy_leaf proof)
unfolding prove
verify_sound_example =
    verify_sound toy_digests toy_leaf toy_leaf-IsLeafCodec two_accounts proof two_accounts-NoClash
      proof-AreDigests (prove-verify toy_digests toy_leaf two_accounts 2 two_accounts-NoClash)
