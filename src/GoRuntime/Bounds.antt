-- ===== src/GoRuntime/Bounds.antt =====
-- internal/controller/go_runtime_env.go: the bounds of the two numbers.
use bindplane_operator.Prelude.{
  ℕ, ◌+◌, ◌-◌, ◌*◌, ◌/◌, ◌<◌, ◌≤◌, ◌≡◌, ℤ, pos, ◌≤ℤ◌, two_63, add64, sub64, mul64, wrap64, quot,
  arith,
}
use bindplane_operator.GoRuntime.{ceil_milli_cpus, apply_memory_headroom}

-- A positive amount of CPU, within the range in which adding 999 does not wrap, is rounded up to
-- the least number of whole CPUs that is not below it.
pub ceil_milli_cpus_bounds :
    (m n : ℕ)
    → 0 < m
    → m + 999 < two_63
    → ceil_milli_cpus (pos m) ≡ pos n
    → (m ≤ 1000 * n) × (1000 * n < m + 1000)
unfolding ceil_milli_cpus add64 wrap64 quot
ceil_milli_cpus_bounds m n h k e = ground arith

-- As long as ten times the limit fits an int64, the headroom is the tenth of it, rounded down.
pub apply_memory_headroom_lem :
    (b : ℕ) → 0 < b → b * 10 < two_63 → apply_memory_headroom (pos b) ≡ pos (b - b / 10)
unfolding apply_memory_headroom mul64 sub64 wrap64 quot
apply_memory_headroom_lem b h k = ground arith

-- For every int64, also where the product wraps around, the limit is at least one byte.
pub apply_memory_headroom_pos : (bytes : ℤ) → pos 1 ≤ℤ apply_memory_headroom bytes
unfolding apply_memory_headroom
apply_memory_headroom_pos bytes = ground arith
