-- ===== src/Notifications/Retry.antt =====
-- app/notifications/domain/email_retry_policy.py, in seconds.
use native.Mathlib.Nat.{pow-suc}
use seniors_empregabilidade.Prelude.{
  Bool, Option, arith, leb, min, none, refl, some, suc, zero, ℕ, ◌*◌, ◌^◌, ◌↔◌, ◌≡◌, ◌≤◌,
}

abbrev pub first_retry : ℕ
first_retry = 60

abbrev pub longest_retry : ℕ
longest_retry = 3600

-- `none` is the `ValueError` for a count below one; `1 << n` is `2 ^ n`.
unfoldable pub retry_delay : (failed_attempts : ℕ) → Option ℕ
retry_delay zero = none
retry_delay (suc n) = some (min (first_retry * 2 ^ n) longest_retry)

abbrev pub gives_up : (failed_attempts max_attempts : ℕ) → Bool
gives_up failed_attempts max_attempts = leb max_attempts failed_attempts

pow-ge_one : (n : ℕ) → 1 ≤ 2 ^ n
pow-ge_one zero = omega arith
pow-ge_one (suc n) = rw (pow-suc 2 n) (omega (arith, pow-ge_one n))

pow-ge_64 : (n : ℕ) → 64 ≤ 2 ^ suc (suc (suc (suc (suc (suc n)))))
pow-ge_64 n = omega (
  arith,
  pow-ge_one n,
  pow-suc 2 n,
  pow-suc 2 (suc n),
  pow-suc 2 (suc (suc n)),
  pow-suc 2 (suc (suc (suc n))),
  pow-suc 2 (suc (suc (suc (suc n)))),
  pow-suc 2 (suc (suc (suc (suc (suc n))))),
)

-- Six doublings of a minute pass the hour, and five do not.
pow_limit : (n : ℕ) → (60 ≤ 2 ^ n) ↔ (6 ≤ n)
pow_limit zero = (λ h. omega arith, λ h. omega arith)
pow_limit (suc zero) = (λ h. omega arith, λ h. omega arith)
pow_limit (suc (suc zero)) = (λ h. omega arith, λ h. omega arith)
pow_limit (suc (suc (suc zero))) = (λ h. omega arith, λ h. omega arith)
pow_limit (suc (suc (suc (suc zero)))) = (λ h. omega arith, λ h. omega arith)
pow_limit (suc (suc (suc (suc (suc zero))))) = (λ h. omega arith, λ h. omega arith)
pow_limit (suc (suc (suc (suc (suc (suc n)))))) =
    (λ h. omega arith, λ h. omega (arith, pow-ge_64 n))

pub retry_delay_pos : (n wait : ℕ) → retry_delay (suc n) ≡ some wait → 1 ≤ wait
unfolding retry_delay
retry_delay_pos n wait h = ground (arith, pow-ge_one n)

-- After at least one failure the wait is between a minute and an hour, one more failure never
-- shortens it and at most doubles it, and it is the full hour exactly from the seventh failure on.
pub retry_delay_bounds :
    (n : ℕ)
    → (d e : ℕ) × (retry_delay (suc n) ≡ some d)
      × (retry_delay (suc (suc n)) ≡ some e)
      × (60 ≤ d)
      × (d ≤ 3600)
      × (d ≤ e)
      × (e ≤ 2 * d)
      × ((d ≡ 3600) ↔ (7 ≤ suc n))
unfolding retry_delay
retry_delay_bounds n = (
  _,
  _,
  refl,
  refl,
  omega (arith, pow-ge_one n),
  omega arith,
  omega (arith, pow-suc 2 n),
  omega (arith, pow-suc 2 n),
  (
    λ h. omega (arith, (pow_limit n).0 (omega arith)),
    λ h. omega (arith, (pow_limit n).1 (omega arith)),
  ),
)
