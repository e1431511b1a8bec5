-- ===== src/Prelude/Digits.antt =====
-- Texts of digits, and the parts of a text.
use Prim.Native.Nat.{ℕ, zero, suc, ◌+◌, ◌-◌, ◌%◌, ◌≤◌}
use mathlib.Core.Logic.{◌⊎◌}
use mathlib.Core.Path.{◌≡◌, refl, ap}
use mathlib.Core.Bool.{Bool, true, false, ◌&&◌}
use mathlib.Core.List.{[], ◌∷◌, ◌++◌}
use native.Mathlib.Omega.{arith}
use seniors_empregabilidade.Prelude.Tests.{leb, ◌==◌}
use seniors_empregabilidade.Prelude.Lists.{length, take, drop}
use seniors_empregabilidade.Prelude.Text.{Str, is_empty}

-- An ASCII digit: `isascii()` and `isdigit()` together.

abbrev pub is_ascii_digit : ℕ → Bool
is_ascii_digit c = leb 48 c && leb c 57

abbrev pub all_where : (ℕ → Bool) → Str → Bool
all_where p [] = true
all_where p (c ∷ s) = p c && all_where p s

pub take-append-drop : (n : ℕ) (s : Str) → take n s ++ drop n s ≡ s
take-append-drop zero s = refl
take-append-drop (suc n) [] = refl
take-append-drop (suc n) (c ∷ s) = ap (λ t. c ∷ t) (take-append-drop n s)

pub all_where-append :
    (p : ℕ → Bool) (s t : Str) → all_where p (s ++ t) ≡ (all_where p s && all_where p t)
all_where-append p [] t = refl
all_where-append p (c ∷ s) t = ground (arith, all_where-append p s t)

pub length-append : (s t : Str) → length (s ++ t) ≡ length s + length t
length-append [] t = omega arith
length-append (c ∷ s) t = ground (arith, length-append s t)

pub take-append : (s t : Str) → take (length s) (s ++ t) ≡ s
take-append [] t = refl
take-append (c ∷ s) t = ap (λ r. c ∷ r) (take-append s t)

pub drop-append : (s t : Str) → drop (length s) (s ++ t) ≡ t
drop-append [] t = refl
drop-append (c ∷ s) t = drop-append s t

pub length-take : (n : ℕ) (s : Str) → n ≤ length s → length (take n s) ≡ n
length-take zero s h = refl
length-take (suc n) [] h = omega (arith, h)
length-take (suc n) (c ∷ s) h = ap suc (length-take n s (omega (arith, h)))

pub is_empty-length : (s : Str) → is_empty s ≡ (length s == 0)
is_empty-length [] = refl
is_empty-length (c ∷ s) = ground arith

-- A check digit makes the weighted total of the digits before it a multiple of 11 when it is added,
-- and is 0 where only 10 would.
abbrev pub IsCheckDigit : (total : ℕ) (c : ℕ) → Type 0
IsCheckDigit total c = ((total + (c - 48)) % 11 ≡ 0) ⊎ ((total % 11 ≡ 1) × (c ≡ 48))

-- Not all characters are the same.
abbrev pub IsVaried : Str → Type 0
IsVaried s = (c : ℕ) → all_where (λ d. d == c) s ≡ false
