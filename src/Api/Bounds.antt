-- ===== src/Api/Bounds.antt =====
-- apps/rc-api/src/devices/hw.service.ts, conn.service.ts and fleet/fleet.service.ts: the numbers of a query,
-- brought between bounds.
use ukpc_remote_control.Prelude.{
  ℕ, ◌≤◌, Option, none, some, arith, Number, finite, pos, negsuc, nan, infinity, neg_infinity, ltb,
  if◌then◌else◌,
}

-- `fallback` for what is no finite number, else `Math.min(hi, Math.max(lo, Math.trunc(n)))`
unfoldable pub clamp : Option Number → ℕ → ℕ → ℕ → ℕ
clamp (some (finite (pos n))) lo hi fallback = if ltb hi n then hi else if ltb n lo then lo else n
clamp (some (finite (negsuc n))) lo hi fallback = lo
clamp _ lo hi fallback = fallback

abbrev pub clamp_hours : Option Number → ℕ
clamp_hours h = clamp h 1 720 24

-- the hours of `connections`
abbrev pub connection_hours : Option Number → ℕ
connection_hours h = clamp h 1 720 24

-- A number of the query is brought between the bounds, where the value without one lies there.
pub clamp_bounds :
    (n : Option Number) (lo hi fallback : ℕ)
    → lo ≤ fallback
    → fallback ≤ hi
    → (lo ≤ clamp n lo hi fallback) × (clamp n lo hi fallback ≤ hi)
unfolding clamp
clamp_bounds none lo hi fallback a b = ground (arith, a, b)
clamp_bounds (some (finite (pos n))) lo hi fallback a b = ground (arith, a, b)
clamp_bounds (some (finite (negsuc n))) lo hi fallback a b = ground (arith, a, b)
clamp_bounds (some nan) lo hi fallback a b = ground (arith, a, b)
clamp_bounds (some infinity) lo hi fallback a b = ground (arith, a, b)
clamp_bounds (some neg_infinity) lo hi fallback a b = ground (arith, a, b)
