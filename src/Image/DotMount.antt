-- ===== src/Image/DotMount.antt =====
-- services/DotMountGate.ts: whether the dot directory may be mounted over the image's home.
pub mod Gate
use docker_claudebox.Domain.Version.{lt, Comparison, Version, compare_to, parse_loose, is_digits}
use docker_claudebox.Image.Docker.{image_unstamped, image_unavailable}
use docker_claudebox.Base.{
  Bool, Option, Text, drop_run, false, if◌then◌else◌, is_digit, nat_beq, none, not, some, take_run,
  text, text_eq, true, ◌==◌, ◌||◌, ◌∷◌,
}

abbrev pub dot_mount_min_image_version : Text
dot_mount_min_image_version = text "5.1.0"

pub data DotMountDecision : Type 0 where
  mount : DotMountDecision
  skip_unknown skip_unparseable skip_older : Text → DotMountDecision

-- A run of digits, and the text behind it.
unfoldable pub after_digits : Text → Option Text
after_digits s = if is_digits (take_run is_digit s) then some (drop_run is_digit s) else none

unfoldable pub after_dot : Option Text → Option Text
after_dot (some (c ∷ s)) = if nat_beq c b'.' then some s else none
after_dot _ = none

abbrev pub then_digits : Option Text → Option Text
then_digits none = none
then_digits (some s) = after_digits s

-- `/^\d+\.\d+\.\d+/.test(raw)`
unfoldable pub looks_like_version : Text → Bool
looks_like_version raw =
    elim (then_digits (after_dot (then_digits (after_dot (after_digits raw))))) [
      | none ↦ false
      | some _ ↦ true
    ]

-- `decide`, for the version that docker reports.
unfoldable pub decide_mount : Text → DotMountDecision
decide_mount raw =
    if raw == image_unavailable || raw == image_unstamped
    then skip_unknown raw
    else if not (looks_like_version raw)
    then skip_unparseable raw
    else elim (compare_to (parse_loose raw) (parse_loose dot_mount_min_image_version)) [
      | lt ↦ skip_older raw
      | _ ↦ mount
    ]
