-- ===== src/Mempool/Tests.antt =====
-- Insertion into an empty pool, and what leaves a small one.
use zeno_final_code.Common.{ℕ, ◌≡◌, refl, false, none, some, [], arith}
use zeno_final_code.TreeMap
use zeno_final_code.TreeMap.{TreeMap, nat_key, pair_key}
use zeno_final_code.Types.{Transaction}
use zeno_final_code.Mempool.{Inner, empty, insert, enter, evict_expired, admit}
use zeno_final_code.Mempool.Insertion.{IsConsistent, Ends, insert-Ends}
use zeno_final_code.Mempool.Removal.{evict_expired_lem, keep_live}

-- The id of a transaction, for these tests: its nonce.
abbrev toy_id : Transaction → ℕ
toy_id tx = tx.body.nonce

abbrev transfer : ℕ → Transaction
transfer nonce = record {
  body = record {
    chain_id = "zeno";
    sender = 1;
    recipient = 2;
    amount = 5;
    nonce = nonce;
    fee = 10;
    evm = none;
    memo = none;
    valid_until = some 20;
  };
  public_key = [];
  signature = [];
}

empty-IsConsistent : IsConsistent toy_id empty
unfolding TreeMap.get
empty-IsConsistent = record {
  indexed = record {
    hashed = λ h tx e. ground arith;
    keyed = λ h tx e. ground arith;
    ranked = λ h tx e. ground arith;
    points = λ s n h e. ground arith;
    pays = λ f h e. ground arith;
  };
  counts = record {
    sorted = tt;
    counted = λ s. refl;
    limited = λ s. omega arith;
    capped = omega arith;
  };
}

abbrev pool : Inner
pool = enter toy_id false (transfer 7) empty

pool-IsConsistent : IsConsistent toy_id pool
unfolding TreeMap.get TreeMap.insert insert admit enter
pool-IsConsistent = (insert-Ends toy_id (transfer 7) empty empty-IsConsistent).0

insert-Ends_example : Ends toy_id (transfer 8) pool (insert toy_id (transfer 8) pool)
insert-Ends_example = insert-Ends toy_id (transfer 8) pool pool-IsConsistent

evict_expired_lem_example :
    IsConsistent toy_id (evict_expired 21 pool)
    × ((h : ℕ)
        → TreeMap.get h (evict_expired 21 pool).by_hash ≡ keep_live 21 (TreeMap.get h pool.by_hash))
evict_expired_lem_example = evict_expired_lem toy_id 21 pool pool-IsConsistent
