-- ===== src/Base/Numbers.antt =====
-- Decimal numerals: how `${n}` prints a natural number, and how `Number` reads a run of digits.
-- JavaScript numbers are exact here, as they are below 2^53.
use Prim.Native.Nat.{ℕ, zero, suc, ◌+◌, ◌-◌, ◌*◌, ◌/◌, ◌%◌, ◌<◌}
use mathlib.Core.Path.{◌≡◌, refl}
use mathlib.Core.Bool.{true}
use mathlib.Core.List.{[], ◌∷◌, ◌++◌}
use mathlib.Core.Logic.{inl, inr, ◌≢◌}
use native.Mathlib.Omega.{arith}
use docker_claudebox.Base.Tests.{ltb, if◌then◌else◌, Bool-cases}
use docker_claudebox.Base.Lists.{all}
use docker_claudebox.Base.Texts.{Text, is_digit}
use docker_claudebox.Base.Runs.{all-append}

read_from : ℕ → Text → ℕ
read_from acc [] = acc
read_from acc (c ∷ s) = read_from (acc * 10 + (c - b'0')) s

unfoldable pub read_number : Text → ℕ
unfolding read_from
read_number s = read_from 0 s

-- The number is below the fuel, which falls faster than it.
show_fuel : ℕ → ℕ → Text
show_fuel zero n = []
show_fuel (suc f) n =
    let rest = show_fuel f (n / 10) in
    if ltb n 10 then (b'0' + n) ∷ [] else rest ++ (b'0' + n % 10) ∷ []

unfoldable pub show_number : ℕ → Text
unfolding show_fuel
show_number n = show_fuel (suc n) n

read_from-append :
    (acc : ℕ) (s : Text) (c : ℕ) → read_from acc (s ++ c ∷ []) ≡ read_from acc s * 10 + (c - b'0')
unfolding read_from
read_from-append acc [] c = refl
read_from-append acc (d ∷ s) c = read_from-append (acc * 10 + (d - b'0')) s c

read-show_fuel : (f n : ℕ) → n < f → read_from 0 (show_fuel f n) ≡ n
unfolding show_fuel read_from
read-show_fuel zero n h = elim h [ ]
read-show_fuel (suc f) n h = elim (Bool-cases (ltb n 10)) [
  | inl small ↦ rw small (ground arith)
  | inr big ↦
      rw (big, read_from-append 0 (show_fuel f (n / 10)) (b'0' + n % 10))
        (ground (arith, read-show_fuel f (n / 10)))
]

pub read-show_number : (n : ℕ) → read_number (show_number n) ≡ n
unfolding read_number show_number
read-show_number n = read-show_fuel (suc n) n (omega arith)

digits-show_fuel : (f n : ℕ) → all is_digit (show_fuel f n) ≡ true
unfolding show_fuel is_digit
digits-show_fuel zero n = refl
digits-show_fuel (suc f) n = elim (Bool-cases (ltb n 10)) [
  | inl small ↦ rw small (ground arith)
  | inr big ↦ rw big (
      all-append is_digit (show_fuel f (n / 10)) ((b'0' + n % 10) ∷ [])
        (digits-show_fuel f (n / 10)) (ground arith))
]

pub digits-show_number : (n : ℕ) → all is_digit (show_number n) ≡ true
unfolding show_number
digits-show_number n = digits-show_fuel (suc n) n

-- A printed number has a digit at least.
show_fuel-ne-nil : (f n : ℕ) → show_fuel (suc f) n ≢ []
unfolding show_fuel
show_fuel-ne-nil f n = elim (Bool-cases (ltb n 10)) [
  | inl small ↦ rw small (λ e. cc e)
  | inr big ↦ rw big (append-ne-nil (show_fuel f (n / 10)) (b'0' + n % 10))
]
  where
    append-ne-nil : (s : Text) (c : ℕ) → s ++ c ∷ [] ≢ []
    append-ne-nil [] c e = cc e
    append-ne-nil (d ∷ s) c e = cc e

pub show_number-ne-nil : (n : ℕ) → show_number n ≢ []
unfolding show_number
show_number-ne-nil n = show_fuel-ne-nil n n
