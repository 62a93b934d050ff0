-- ===== src/Domain/Version.antt =====
-- domain/Version.ts: semantic versions, parsed strictly and loosely, and their comparison.
pub mod Order
pub mod RoundTrip
use docker_claudebox.Base.{
  Bool, List, Option, Text, [], all, false, if◌then◌else◌, is_digit, ltb, nat_beq, none, not,
  read_number, refl, show_number, some, split_on, suc, take_run, text, trim, zero, ℕ, ◌&&◌, ◌++◌,
  ◌∷◌, ◌≡◌,
}

pub record Version : Type 0 where
  pub major : ℕ
  pub minor : ℕ
  pub patch : ℕ
  pub raw : Text

pub data Severity : Type 0 where
  major_skew minor_skew patch_skew same : Severity

pub data Comparison : Type 0 where
  gt lt eq : Comparison

-- `input.trim().replace(/^v/, "")`
unfoldable pub strip_v : Text → Text
strip_v [] = []
strip_v (c ∷ s) = if nat_beq c b'v' then s else c ∷ s

-- `\d+`
unfoldable pub is_digits : Text → Bool
unfolding is_digit
is_digits [] = false
is_digits (c ∷ s) = all is_digit (c ∷ s)

-- The three groups of `^(\d+)\.(\d+)\.(\d+)$`.
unfoldable pub version_of : Text → List Text → Option Version
version_of raw (a ∷ (b ∷ (c ∷ []))) =
    if is_digits a && (is_digits b && is_digits c)
    then some
        (record { major = read_number a; minor = read_number b; patch = read_number c; raw = raw })
    else none
version_of raw _ = none

-- `none` where the code throws.
unfoldable pub parse : Text → Option Version
parse input = version_of (trim input) (split_on b'.' (strip_v (trim input)))

-- The leading digits of a component; 0 without one.
unfoldable pub leading_number : Option Text → ℕ
leading_number none = 0
leading_number (some s) = read_number (take_run is_digit s)

unfoldable pub get_part : List Text → ℕ → Option Text
get_part [] i = none
get_part (p ∷ ps) zero = some p
get_part (p ∷ ps) (suc i) = get_part ps i

unfoldable pub parse_loose : Text → Version
parse_loose input =
    let parts = split_on b'.' (strip_v (trim input)) in
    record {
      major = leading_number (get_part parts 0);
      minor = leading_number (get_part parts 1);
      patch = leading_number (get_part parts 2);
      raw = trim input;
    }

unfoldable pub to_text : Version → Text
to_text v = show_number v.major ++ (b'.' ∷ (show_number v.minor ++ (b'.' ∷ show_number v.patch)))

unfoldable pub compare_to : Version → Version → Comparison
compare_to a b =
    if not (nat_beq a.major b.major)
    then (if ltb a.major b.major then lt else gt)
    else if not (nat_beq a.minor b.minor)
    then (if ltb a.minor b.minor then lt else gt)
    else if not (nat_beq a.patch b.patch)
    then (if ltb a.patch b.patch then lt else gt)
    else eq

unfoldable pub skew_severity : Version → Version → Severity
skew_severity a b =
    if not (nat_beq a.major b.major)
    then major_skew
    else if not (nat_beq a.minor b.minor)
    then minor_skew
    else if not (nat_beq a.patch b.patch)
    then patch_skew
    else same

parse_runs :
    parse (text " v3.10.7\n")
    ≡ some (record { major = 3; minor = 10; patch = 7; raw = text "v3.10.7" })
unfolding parse version_of strip_v is_digits read_number trim split_on
parse_runs = refl

parse_loose_runs :
    parse_loose (text "0.1.2-rc1")
    ≡ record { major = 0; minor = 1; patch = 2; raw = text "0.1.2-rc1" }
unfolding parse_loose strip_v leading_number get_part read_number trim split_on take_run is_digit
parse_loose_runs = refl
