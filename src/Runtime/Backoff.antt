-- ===== src/Runtime/Backoff.antt =====
-- The back-off of `#scheduleBackoff`.
use native.Mathlib.Nat.{pow-suc}
use qq_index.Prelude.{ℕ, zero, suc, ◌*◌, ◌^◌, ◌≤◌, ◌≡◌, min, max, arith}
use qq_index.Runtime.State.{Config, next_backoff}

-- The delay of the back-off after `n` others, from a runtime that has just been attached.
pub backoff_after : Config → ℕ → ℕ
backoff_after c zero = c.restart_initial_backoff
backoff_after c (suc n) = next_backoff c (backoff_after c n)

pow-pos : (n : ℕ) → 1 ≤ 2 ^ n
pow-pos zero = omega arith
pow-pos (suc n) = rw (pow-suc 2 n) (omega (arith, pow-pos n))

step-closed :
    (low high p : ℕ)
    → 1 ≤ p
    → low ≤ high
    → min high (max low (min high (low * p) * 2)) ≡ min high (low * (p * 2))
step-closed low high p pos h = let grows : low * 1 ≤ low * p = grind arith in omega arith

-- If the initial delay is at most the limit, each delay doubles the one before, up to the limit.
pub backoff_after_lem :
    (c : Config) (n : ℕ)
    → c.restart_initial_backoff ≤ c.restart_max_backoff
    → backoff_after c n ≡ min c.restart_max_backoff (c.restart_initial_backoff * 2 ^ n)
unfolding backoff_after next_backoff
backoff_after_lem c zero h = omega arith
backoff_after_lem c (suc n) h =
    rw (backoff_after_lem c n h, pow-suc 2 n)
      (step-closed c.restart_initial_backoff c.restart_max_backoff (2 ^ n) (pow-pos n) h)
