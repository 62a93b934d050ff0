-- ===== src/Examples/Versions.antt =====
-- Versions at concrete inputs.
use docker_claudebox.Domain.Version.{
  Version, parse, parse_loose, to_text, compare_to, skew_severity, gt, lt, eq, same, version_of,
  strip_v, is_digits,
}
use docker_claudebox.Domain.Version.Order.{
  IsBefore, SameParts, flip, compare_to_iff, compare_to_symmetry, compare_to_trans,
}
use docker_claudebox.Domain.Version.RoundTrip.{parse-to_text, parse_loose-parse}
use docker_claudebox.Base.{[], read_number, refl, some, split_on, text, trim, ℕ, ◌↔◌, ◌≡◌}

abbrev version : ℕ → ℕ → ℕ → Version
version a b c = record { major = a; minor = b; patch = c; raw = [] }

compare_to_iff_example :
    ((compare_to (version 5 8 0) (version 5 10 0) ≡ lt) ↔ IsBefore (version 5 8 0) (version 5 10 0))
    × ((compare_to (version 5 8 0) (version 5 10 0) ≡ gt)
        ↔ IsBefore (version 5 10 0) (version 5 8 0))
    × ((compare_to (version 5 8 0) (version 5 10 0) ≡ eq)
        ↔ SameParts (version 5 8 0) (version 5 10 0))
compare_to_iff_example = compare_to_iff (version 5 8 0) (version 5 10 0)

compare_to_symmetry_example :
    (compare_to (version 1 2 3) (version 1 2 4) ≡ flip (compare_to (version 1 2 4) (version 1 2 3)))
    × (skew_severity (version 1 2 3) (version 1 2 4)
        ≡ skew_severity (version 1 2 4) (version 1 2 3))
    × ((skew_severity (version 1 2 4) (version 1 2 3) ≡ same)
        ↔ (compare_to (version 1 2 4) (version 1 2 3) ≡ eq))
compare_to_symmetry_example = compare_to_symmetry (version 1 2 4) (version 1 2 3)

before : compare_to (version 5 8 0) (version 5 10 0) ≡ lt
unfolding compare_to
before = refl

before_next : compare_to (version 5 10 0) (version 6 0 0) ≡ lt
unfolding compare_to
before_next = refl

compare_to_trans_example : compare_to (version 5 8 0) (version 6 0 0) ≡ lt
compare_to_trans_example =
    compare_to_trans (version 5 8 0) (version 5 10 0) (version 6 0 0) before before_next

parse-to_text_example :
    parse (to_text (version 5 8 0))
    ≡ some (record (version 5 8 0) { raw = to_text (version 5 8 0) })
parse-to_text_example = parse-to_text (version 5 8 0)

strict :
    parse (text "v5.8.0") ≡ some (record { major = 5; minor = 8; patch = 0; raw = text "v5.8.0" })
unfolding parse version_of strip_v is_digits read_number trim split_on
strict = refl

parse_loose-parse_example :
    parse_loose (text "v5.8.0") ≡ record { major = 5; minor = 8; patch = 0; raw = text "v5.8.0" }
parse_loose-parse_example = parse_loose-parse (text "v5.8.0") _ strict
