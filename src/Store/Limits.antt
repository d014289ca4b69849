-- ===== src/Store/Limits.antt =====
-- The bound on list reads (`boundedLimit` of src/server/production/memory-store.ts).
use machina_sol.Prelude.{ℕ, ◌/◌, ◌^◌, ◌≤◌, Option, none, some, min, max, arith}
use machina_sol.Number.{ℤ, pos, negsuc, Number, nan, infinite, finite}

abbrev pub default_production_list_limit : ℕ
default_production_list_limit = 100

abbrev pub max_production_list_limit : ℕ
max_production_list_limit = 200

-- Math.max(1, Math.trunc(m / 2 ^ k)), which is 1 below zero.
at_least_one : ℤ → ℕ → ℕ
at_least_one (pos m) k = max 1 (m / 2 ^ k)
at_least_one (negsuc m) k = 1

unfoldable pub bounded_limit : Option Number → ℕ
unfolding at_least_one
bounded_limit none = default_production_list_limit
bounded_limit (some nan) = default_production_list_limit
bounded_limit (some (infinite s)) = default_production_list_limit
bounded_limit (some (finite m k)) = min max_production_list_limit (at_least_one m k)

-- A page holds at least one row and at most 200, whatever limit the caller names.
pub bounded_limit_bounds :
    (limit : Option Number) → (1 ≤ bounded_limit limit) × (bounded_limit limit ≤ 200)
unfolding bounded_limit
bounded_limit_bounds none = omega arith
bounded_limit_bounds (some nan) = omega arith
bounded_limit_bounds (some (infinite s)) = omega arith
bounded_limit_bounds (some (finite (pos m) k)) = omega arith
bounded_limit_bounds (some (finite (negsuc m) k)) = omega arith
