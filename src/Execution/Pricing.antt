-- ===== src/Execution/Pricing.antt =====
-- `update_base_fee`: the bounds of the price of gas.
use zeno_final_code.Common.{ℕ, ◌≤◌, ◌<◌, ◌≡◌, inl, inr, arith, max, u128_max, ltb, Bool-cases}
use zeno_final_code.Execution.{GasPricingState, update_base_fee, min_base_fee}

-- For a base fee that fits in a u128, the next one is at least the minimum and fits too; a block
-- that used more than the target raises it, unless it is the greatest there is; another block does
-- not raise it above the greater of itself and the minimum; and the gas used is counted anew.
pub update_base_fee_lem :
    (current : GasPricingState) (target : ℕ)
    → 0 < target
    → current.base_fee ≤ u128_max
    → let next = update_base_fee current target in
      (min_base_fee ≤ next.base_fee)
      × (next.base_fee ≤ u128_max)
      × (target < current.last_block_gas_used
          → current.base_fee < u128_max
          → current.base_fee < next.base_fee)
      × (current.last_block_gas_used ≤ target → next.base_fee ≤ max current.base_fee min_base_fee)
      × (next.last_block_gas_used ≡ 0)
unfolding update_base_fee
update_base_fee_lem current target positive fits =
    elim (Bool-cases (ltb target current.last_block_gas_used)) [
      | inl over ↦ ground (arith, over)
      | inr under ↦ ground (arith, under)
    ]
