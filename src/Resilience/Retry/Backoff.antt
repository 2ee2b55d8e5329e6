-- ===== src/Resilience/Retry/Backoff.antt =====
-- The delays between attempts (retry.go, `nextBackoff`).
use Prim.Native.Nat.{min}
use native.Mathlib.Nat.{pow-suc}
use backend_infrastructure_g.Base.{
  ℕ, zero, suc, ◌*◌, ◌^◌, ◌≤◌, ◌<◌, ◌≡◌, ap, ℤ, pos, max_int64, leb, arith, if◌then◌else◌,
}
use backend_infrastructure_g.Resilience.Retry.{next_backoff}

-- The delay after k failed attempts.
unfoldable pub delay_after : ℕ → ℤ → ℤ → ℤ
delay_after zero initial maximum = initial
delay_after (suc k) initial maximum = next_backoff (delay_after k initial maximum) maximum

next_backoff-bounded :
    (c m : ℕ)
    → c ≤ max_int64
    → 0 < m
    → m ≤ max_int64
    → next_backoff (pos c) (pos m) ≡ pos (min (2 * c) m)
unfolding next_backoff
next_backoff-bounded c m hc h0 hm = ground arith

next_backoff-unbounded :
    (c : ℕ)
    → c ≤ max_int64
    → next_backoff (pos c) (pos 0) ≡ pos (if leb (2 * c) max_int64 then 2 * c else 0)
unfolding next_backoff
next_backoff-unbounded c hc = ground arith

double : (c k : ℕ) → c * 2 ^ suc k ≡ 2 * (c * 2 ^ k)
double c k = rw pow-suc (omega arith)

-- With a positive maximum, the delay after k failures, from the second on, is the initial delay
-- doubled k times, or the maximum where that is smaller, and nothing overflows on the way.
pub delay_after-eq_min :
    (k c m : ℕ)
    → c ≤ max_int64
    → 0 < m
    → m ≤ max_int64
    → delay_after (suc k) (pos c) (pos m) ≡ pos (min (c * 2 ^ suc k) m)
unfolding delay_after
delay_after-eq_min zero c m hc h0 hm = rw (next_backoff-bounded c m hc h0 hm) (ap pos (omega arith))
delay_after-eq_min (suc k) c m hc h0 hm =
    rw
      (
        delay_after-eq_min k c m hc h0 hm,
        next_backoff-bounded (min (c * 2 ^ suc k) m) m (omega arith) h0 hm,
      )
      (ap pos (omega (arith, double c (suc k))))

-- With no maximum, the delay doubles as long as it fits an int64, and is 0 from then on: the
-- attempts after an overflow follow one another with no pause.
pub delay_after-no_maximum :
    (k c : ℕ)
    → c ≤ max_int64
    → delay_after k (pos c) (pos 0) ≡ pos (if leb (c * 2 ^ k) max_int64 then c * 2 ^ k else 0)
unfolding delay_after
delay_after-no_maximum zero c hc = ground arith
delay_after-no_maximum (suc k) c hc =
    let d : ℕ = c * 2 ^ k in
    rw
      (
        delay_after-no_maximum k c hc,
        next_backoff-unbounded (if leb d max_int64 then d else 0) (ground arith),
      )
      (ap pos (ground (arith, double c k)))
