-- ===== src/Domain/Version/RoundTrip.antt =====
-- Printing and parsing versions.
use docker_claudebox.Domain.Version.{
  Version, strip_v, is_digits, version_of, parse, leading_number, get_part, parse_loose, to_text,
}
use docker_claudebox.Base.{
  Bool, List, Text, [], all, all-append, all_weaken, ap, arith, digits-show_number, false,
  if◌then◌else◌, is_digit, is_space, nat_beq, not, read-show_number, read_number, refl, show_number,
  show_number-ne-nil, some, split_on, split_on-append, split_on_one, sym, take_run_whole, trim,
  trim_id, true, ℕ, ◌++◌, ◌∷◌, ◌≡◌, ◌≢◌,
}

is_digits_of : (s : Text) → s ≢ [] → all is_digit s ≡ true → is_digits s ≡ true
unfolding is_digits
is_digits_of [] h k = absurd (h refl)
is_digits_of (c ∷ s) h k = k

is_digits-all : (s : Text) → is_digits s ≡ true → all is_digit s ≡ true
unfolding is_digits
is_digits-all [] h = refl
is_digits-all (c ∷ s) h = h

is_digits-show_number : (n : ℕ) → is_digits (show_number n) ≡ true
is_digits-show_number n = is_digits_of (show_number n) (show_number-ne-nil n) (digits-show_number n)

digit-not_space : (c : ℕ) → is_digit c ≡ true → not (is_space c) ≡ true
unfolding is_digit is_space
digit-not_space c h = ground arith

digit-not_dot : (c : ℕ) → is_digit c ≡ true → (if nat_beq c b'.' then false else true) ≡ true
unfolding is_digit
digit-not_dot c h = ground arith

show_number-without :
    (q : ℕ → Bool) (n : ℕ)
    → ((c : ℕ) → is_digit c ≡ true → q c ≡ true)
    → all q (show_number n) ≡ true
show_number-without q n f = all_weaken is_digit q (show_number n) f (digits-show_number n)

strip_v-digits : (s t : Text) → is_digits s ≡ true → strip_v (s ++ t) ≡ s ++ t
unfolding strip_v is_digits is_digit
strip_v-digits [] t h = cc
strip_v-digits (c ∷ s) t h = ground arith

to_text-no_space : (v : Version) → all (λ c. not (is_space c)) (to_text v) ≡ true
unfolding to_text is_space
to_text-no_space v =
    let shown = λ (n : ℕ). show_number-without (λ c. not (is_space c)) n digit-not_space in
    all-append _ (show_number v.major)
      (b'.' ∷ (show_number v.minor ++ (b'.' ∷ show_number v.patch))) (shown v.major)
      (all-append _ (show_number v.minor) (b'.' ∷ show_number v.patch) (shown v.minor)
        (shown v.patch))

split_on-to_text :
    (v : Version)
    → split_on b'.' (to_text v)
      ≡ show_number v.major ∷ (show_number v.minor ∷ (show_number v.patch ∷ []))
unfolding to_text
split_on-to_text v =
    let shown = λ (n : ℕ).
      show_number-without (λ c. if nat_beq c b'.' then false else true) n digit-not_dot in
    rw (
      split_on-append b'.' (show_number v.major)
          (show_number v.minor ++ (b'.' ∷ show_number v.patch)) (shown v.major),
      split_on-append b'.' (show_number v.minor) (show_number v.patch) (shown v.minor),
      split_on_one b'.' (show_number v.patch) (shown v.patch),
    )

strip_v-to_text : (v : Version) → strip_v (to_text v) ≡ to_text v
unfolding to_text
strip_v-to_text v = strip_v-digits (show_number v.major) _ (is_digits-show_number v.major)

-- A printed version parses to the same components, and its `raw` is the text.
pub parse-to_text : (v : Version) → parse (to_text v) ≡ some (record v { raw = to_text v })
unfolding parse version_of
parse-to_text v = rw (
  trim_id (to_text v) (to_text-no_space v),
  strip_v-to_text v,
  split_on-to_text v,
  is_digits-show_number v.major,
  is_digits-show_number v.minor,
  is_digits-show_number v.patch,
  read-show_number v.major,
  read-show_number v.minor,
  read-show_number v.patch,
)

leading_number-digits : (s : Text) → is_digits s ≡ true → leading_number (some s) ≡ read_number s
unfolding leading_number
leading_number-digits s h = ap read_number (take_run_whole is_digit s (is_digits-all s h))

version_of-loose :
    (raw : Text) (ps : List Text) (v : Version)
    → version_of raw ps ≡ some v
    → v ≡ record {
      major = leading_number (get_part ps 0);
      minor = leading_number (get_part ps 1);
      patch = leading_number (get_part ps 2);
      raw = raw;
    }
unfolding version_of get_part
version_of-loose raw (a ∷ (b ∷ (c ∷ []))) v h =
    ground (arith, leading_number-digits a, leading_number-digits b, leading_number-digits c)
version_of-loose raw _ v h = cc

-- Where the strict parser accepts, the loose one gives the same version; it never fails.
pub parse_loose-parse : (input : Text) (v : Version) → parse input ≡ some v → parse_loose input ≡ v
unfolding parse parse_loose
parse_loose-parse input v h = sym (version_of-loose (trim input) _ v h)
