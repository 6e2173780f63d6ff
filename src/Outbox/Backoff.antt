-- ===== src/Outbox/Backoff.antt =====
-- src/outbox/util.rs: when a failed stage is tried again. `none` stands for an arithmetic overflow of
-- `i64`, at which a build with overflow checks panics; the limits of chrono's own types, about
-- 292 million years, are left out.
use native.Mathlib.Nat.{pow-suc}
use native.Mathlib.Numerals.{towards_suc}
use conferences.Base.{
  ℕ, ◌+◌, ◌*◌, ◌^◌, ◌≤◌, ◌<◌, min, ◌≡◌, ap, Option, none, some, if◌then◌else◌, ltb, arith,
}

unfoldable pub delivery_deadline_from_now : ℕ → ℕ → ℕ
delivery_deadline_from_now now try_wake_interval = now + try_wake_interval

-- `2_i64.pow(n)`.
pub pow2_i64 : ℕ → Option ℕ
pow2_i64 n = if ltb n 63 then some (2 ^ n) else none

-- `a * b` on `i64`, at values that are not negative.
pub mul_i64 : ℕ → ℕ → Option ℕ
mul_i64 a b = if ltb (a * b) (2 ^ 63) then some (a * b) else none

unfoldable pub next_delivery_deadline_at : ℕ → ℕ → ℕ → ℕ → Option ℕ
unfolding pow2_i64 mul_i64
next_delivery_deadline_at retry_count deadline try_wake_interval max_delivery_interval =
    elim (pow2_i64 (retry_count + 1)) [
      | none ↦ none
      | some p ↦ elim (mul_i64 try_wake_interval p) [
        | none ↦ none
        | some product ↦ some (deadline + min product max_delivery_interval)
      ]
    ]

pow_double : (n : ℕ) → 2 ^ (n + 1) ≡ 2 ^ n + 2 ^ n
pow_double n = simp towards_suc (omega (arith, pow-suc 2 n))

-- A later try is never due earlier than the try before it, and never later than the cap allows.
pub next_delivery_deadline_at_mono :
    (retry_count deadline try_wake max_delivery : ℕ) {s t : ℕ}
    → next_delivery_deadline_at retry_count deadline try_wake max_delivery ≡ some s
    → next_delivery_deadline_at (retry_count + 1) deadline try_wake max_delivery ≡ some t
    → (deadline ≤ s) × (s ≤ t) × (t ≤ deadline + max_delivery)
unfolding next_delivery_deadline_at
next_delivery_deadline_at_mono r d w m h k =
    ground (arith, pow_double (r + 1), ap (λ (p : ℕ). w * p) (pow_double (r + 1)))

-- From the 63rd failure on there is no deadline, whatever the intervals: the power of two leaves
-- `i64`, even where the cap is far below it.
pub next_delivery_deadline_at_overflow :
    (retry_count deadline try_wake max_delivery : ℕ)
    → 62 ≤ retry_count
    → next_delivery_deadline_at retry_count deadline try_wake max_delivery ≡ none
unfolding next_delivery_deadline_at
next_delivery_deadline_at_overflow r d w m h = ground arith

-- Before the 63rd failure there is a deadline, at most the cap later, as long as the first interval,
-- doubled that often, stays in `i64`.
next_delivery_deadline_at_defined :
    (retry_count deadline try_wake max_delivery : ℕ)
    → retry_count < 62
    → try_wake * 2 ^ (retry_count + 1) < 2 ^ 63
    → (t : ℕ) × (next_delivery_deadline_at retry_count deadline try_wake max_delivery ≡ some t)
      × (t ≤ deadline + max_delivery)
unfolding next_delivery_deadline_at
next_delivery_deadline_at_defined r d w m h k =
    (d + min (w * 2 ^ (r + 1)) m, ground arith, omega arith)
