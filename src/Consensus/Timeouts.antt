-- ===== src/Consensus/Timeouts.antt =====
-- `round_timeout`: the backoff is bounded and never falls from a round to the next.
use zeno_final_code.Common.{zero, ◌≡◌, ℕ, suc, ◌+◌, ◌*◌, ◌%◌, ◌^◌, ◌≤◌, min, arith}
use zeno_final_code.Consensus.{round_timeout}

-- The exponent of the backoff is the round, up to 5.
doubling : (base round : ℕ) → base * 2 ^ min round 5 ≤ base * 2 ^ min (suc round) 5
doubling base zero = omega arith
doubling base (suc zero) = omega arith
doubling base (suc (suc zero)) = omega arith
doubling base (suc (suc (suc zero))) = omega arith
doubling base (suc (suc (suc (suc zero)))) = omega arith
doubling base (suc (suc (suc (suc (suc round))))) =
    let here : min (suc (suc (suc (suc (suc round))))) 5 ≡ 5 = omega arith in
    let next : min (suc (suc (suc (suc (suc (suc round)))))) 5 ≡ 5 = omega arith in
    rw (here, next) (omega arith)

-- A round's timeout is at most a minute, and at most that of the next round.
pub round_timeout_lem :
    (proposal_timeout_ms vote_timeout_ms round : ℕ)
    → (round_timeout proposal_timeout_ms vote_timeout_ms round ≤ 60000)
      × (round_timeout proposal_timeout_ms vote_timeout_ms round
          ≤ round_timeout proposal_timeout_ms vote_timeout_ms (suc round))
unfolding round_timeout
round_timeout_lem p v r = (omega arith, omega (arith, doubling ((p + v) % 2 ^ 64) r))
