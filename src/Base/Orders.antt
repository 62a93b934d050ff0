-- ===== src/Base/Orders.antt =====
-- The order of texts, and lists searched by equality.
use mathlib.Core.Path.{◌≡◌, refl}
use mathlib.Core.Bool.{Bool, true, false, not}
use mathlib.Core.List.{List, [], ◌∷◌}
use Prim.Native.Nat.{ℕ, zero, suc}
use native.Mathlib.Omega.{arith}
use docker_claudebox.Base.Tests.{Eq, ◌==◌, eq_iff, if◌then◌else◌}
use docker_claudebox.Base.Lists.{take, keep, contains, Distinct}
use docker_claudebox.Base.Texts.{Text, text_ltb}

-- `t` is not before `s`.
abbrev pub IsTextLe : Text → Text → Type 0
IsTextLe s t = text_ltb t s ≡ false

pub IsTextLe-refl : (s : Text) → IsTextLe s s
unfolding text_ltb
IsTextLe-refl [] = refl
IsTextLe-refl (a ∷ s) = ground (arith, IsTextLe-refl s)

pub IsTextLe-trans : (s t u : Text) → IsTextLe s t → IsTextLe t u → IsTextLe s u
unfolding text_ltb
IsTextLe-trans [] t [] h k = refl
IsTextLe-trans [] t (c ∷ u) h k = refl
IsTextLe-trans (a ∷ s) [] u h k = cc
IsTextLe-trans (a ∷ s) (b ∷ t) [] h k = k
IsTextLe-trans (a ∷ s) (b ∷ t) (c ∷ u) h k = ground (arith, IsTextLe-trans s t u)

pub text_lt-le : (s t : Text) → text_ltb s t ≡ true → IsTextLe s t
unfolding text_ltb
text_lt-le s [] h = cc
text_lt-le [] (b ∷ t) h = refl
text_lt-le (a ∷ s) (b ∷ t) h = ground (arith, text_lt-le s t)

module _ {ℓ} {A : Type ℓ} ⦃e : Eq A⦄ where
  pub contains-keep :
      (x y : A) (xs : List A)
      → contains (keep (λ h. not (h == x)) xs) y ≡ (if x == y then false else contains xs y)
  contains-keep x y [] = ground arith
  contains-keep x y (z ∷ xs) =
      ground (arith, contains-keep x y xs, eq_iff z x, eq_iff z y, eq_iff x y)

  pub contains-take :
      (n : ℕ) (xs : List A) (y : A) → contains xs y ≡ false → contains (take n xs) y ≡ false
  contains-take zero xs y h = refl
  contains-take (suc n) [] y h = refl
  contains-take (suc n) (x ∷ xs) y h = ground (arith, contains-take n xs y)

  pub Distinct-take : (n : ℕ) (xs : List A) → Distinct xs → Distinct (take n xs)
  Distinct-take zero xs h = tt
  Distinct-take (suc n) [] h = tt
  Distinct-take (suc n) (x ∷ xs) h = (contains-take n xs x h.0, Distinct-take n xs h.1)

  pub contains-keep-false :
      (p : A → Bool) (xs : List A) (y : A) → contains xs y ≡ false → contains (keep p xs) y ≡ false
  contains-keep-false p [] y h = refl
  contains-keep-false p (x ∷ xs) y h = ground (arith, contains-keep-false p xs y)

  pub Distinct-keep : (p : A → Bool) (xs : List A) → Distinct xs → Distinct (keep p xs)
  Distinct-keep p [] h = tt
  Distinct-keep p (x ∷ xs) h = ground (arith, contains-keep-false p xs x, Distinct-keep p xs)
