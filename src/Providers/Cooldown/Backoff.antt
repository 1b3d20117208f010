-- ===== src/Providers/Cooldown/Backoff.antt =====
-- The two backoff schedules of pkg/providers/cooldown.go.
use elvis.Base.{ℕ, zero, suc, ◌*◌, ◌^◌, ◌≤◌, ◌≡◌, refl, ap, min, arith}
use native.Mathlib.Nat.{pow-le-pow_right}
use elvis.Providers.Cooldown.{
  millisecond, minute, hour, calculate_standard_cooldown, calculate_billing_cooldown,
}

-- The schedule in the doc comment of `calculateStandardCooldown`.
unfoldable pub standard_schedule : ℕ → ℕ
standard_schedule zero = minute
standard_schedule (suc zero) = minute
standard_schedule (suc (suc zero)) = 5 * minute
standard_schedule (suc (suc (suc zero))) = 25 * minute
standard_schedule (suc (suc (suc (suc n)))) = hour

-- The schedule in the doc comment of `calculateBillingCooldown`.
unfoldable pub billing_schedule : ℕ → ℕ
billing_schedule zero = 5 * hour
billing_schedule (suc zero) = 5 * hour
billing_schedule (suc (suc zero)) = 10 * hour
billing_schedule (suc (suc (suc zero))) = 20 * hour
billing_schedule (suc (suc (suc (suc n)))) = 24 * hour

-- From the fourth failure on the cap of a day is reached.
capped : (e : ℕ) → 3 ≤ e → min (24 * 60 * 60 * 1000) (5 * 60 * 60 * 1000 * 2 ^ e) ≡ 86_400_000
capped e h = omega (arith, pow-le-pow_right {n = 2} (omega arith) {i = 3} {j = e} h)

-- The code computes the documented schedules, for every number of errors: 1, 5 and 25 minutes and
-- then an hour; and for billing 5, 10 and 20 hours and then a day.
pub cooldown_schedules :
    (n : ℕ)
    → (calculate_standard_cooldown n ≡ standard_schedule n)
      × (calculate_billing_cooldown n ≡ billing_schedule n)
unfolding calculate_standard_cooldown standard_schedule calculate_billing_cooldown billing_schedule
cooldown_schedules zero = (refl, refl)
cooldown_schedules (suc zero) = (refl, refl)
cooldown_schedules (suc (suc zero)) = (refl, refl)
cooldown_schedules (suc (suc (suc zero))) = (refl, refl)
cooldown_schedules (suc (suc (suc (suc n)))) =
    (ground arith, ap (λ ms. ms * millisecond) (capped _ (omega arith)))

standard_at_most_hour : (n : ℕ) → standard_schedule n ≤ hour
unfolding standard_schedule
standard_at_most_hour zero = omega arith
standard_at_most_hour (suc zero) = omega arith
standard_at_most_hour (suc (suc zero)) = omega arith
standard_at_most_hour (suc (suc (suc zero))) = omega arith
standard_at_most_hour (suc (suc (suc (suc n)))) = omega arith

standard_at_least_minute : (n : ℕ) → minute ≤ standard_schedule n
unfolding standard_schedule
standard_at_least_minute zero = omega arith
standard_at_least_minute (suc zero) = omega arith
standard_at_least_minute (suc (suc zero)) = omega arith
standard_at_least_minute (suc (suc (suc zero))) = omega arith
standard_at_least_minute (suc (suc (suc (suc n)))) = omega arith

billing_bounded : (n : ℕ) → (5 * hour ≤ billing_schedule n) × (billing_schedule n ≤ 24 * hour)
unfolding billing_schedule
billing_bounded zero = omega arith
billing_bounded (suc zero) = omega arith
billing_bounded (suc (suc zero)) = omega arith
billing_bounded (suc (suc (suc zero))) = omega arith
billing_bounded (suc (suc (suc (suc n)))) = omega arith

-- A standard cooldown lasts between a minute and an hour.
pub standard_bounded :
    (n : ℕ) → (minute ≤ calculate_standard_cooldown n) × (calculate_standard_cooldown n ≤ hour)
standard_bounded n =
    rw ((cooldown_schedules n).0) (standard_at_least_minute n, standard_at_most_hour n)

-- A billing cooldown lasts between five hours and a day.
pub billing_cooldown_bounded :
    (n : ℕ) → (5 * hour ≤ calculate_billing_cooldown n) × (calculate_billing_cooldown n ≤ 24 * hour)
billing_cooldown_bounded n = rw ((cooldown_schedules n).1) (billing_bounded n)
