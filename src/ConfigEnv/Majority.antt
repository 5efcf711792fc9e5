-- ===== src/ConfigEnv/Majority.antt =====
-- internal/controller/config_env.go: the default number of required hosts, beside a majority.
use bindplane_operator.Prelude.{ℕ, pos, ◌+◌, ◌*◌, ◌/◌, ◌≤◌, ◌<◌, ◌≡◌, some, quot, arith}
use bindplane_operator.ConfigEnv.Common.{add32, required_hosts_of}

add32_of_lt : (a b : ℕ) → a + b < 2147483648 → add32 (pos a) (pos b) ≡ pos (a + b)
unfolding add32
add32_of_lt a b h = ground arith

-- For n replicas of the node and m of NATS, which with the one of Jobs fit an int32, the default is
-- a host count whose double exceeds the total, and by two at most: the least strict majority.
pub required_hosts_of_majority :
    (n m : ℕ)
    → n + m + 1 < 2147483647
    → (h : ℕ) × (required_hosts_of (some (pos n)) (pos m) ≡ pos h)
      × (n + m + 1 < 2 * h)
      × (2 * h ≤ n + m + 1 + 2)
unfolding required_hosts_of quot
required_hosts_of_majority n m h = (
  (n + m + 1) / 2 + 1,
  ground (arith, add32_of_lt n m, add32_of_lt (n + m) 1, add32_of_lt ((n + m + 1) / 2) 1),
  omega arith,
  omega arith,
)
