-- ===== src/Metadata/Checks/Costs.antt =====
-- What HashingCosts.CheckValidity accepts, and what Argon2 is then called with.
use fscrypt.Common.{◌*◌, ◌≡◌, ◌≢◌, ◌↔◌, ◌⊎◌, to_uint, InRange, false, ok, arith}
use fscrypt.Metadata.Types.{HashingCosts}
use fscrypt.Metadata.Checks.{check_costs, max_uint32, max_parallelism}

-- The costs that the check is meant to accept.
abbrev pub Acceptable : HashingCosts → Type 0
Acceptable h =
    (InRange 1 max_parallelism h.parallelism
      ⊎ ((h.truncation_fixed ≡ false) × (to_uint 8 h.parallelism ≢ 0)))
    × InRange 1 max_uint32 h.time
    × InRange (8 * to_uint 8 h.parallelism) max_uint32 h.memory

-- The check accepts exactly the acceptable costs.
pub check_costs_iff : (h : HashingCosts) → (check_costs h ≡ ok tt) ↔ Acceptable h
unfolding check_costs
check_costs_iff h = ground arith
