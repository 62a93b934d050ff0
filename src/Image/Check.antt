-- ===== src/Image/Check.antt =====
-- services/CheckVersion.ts: the wrapper's version against the images'.
pub mod Decisions
use docker_claudebox.Domain.Version.{
  Version, Severity, Comparison, gt, compare_to, skew_severity, parse_loose,
}
use docker_claudebox.Image.Docker.{image_unstamped, image_unavailable}
use docker_claudebox.Base.{
  Bool, Option, Text, false, if◌then◌else◌, none, not, some, text, text_eq, true, ◌&&◌, ◌==◌, ◌||◌,
}

pub record CheckVersionInputs : Type 0 where
  pub wrapper_version : Text
  pub infra_image_version : Text
  pub project_image_version : Option Text
  pub project_id : Option Text

pub data Incomparable : Type 0 where
  predates_versioning vms_down : Incomparable

pub data Direction : Type 0 where
  wrapper_newer image_newer : Direction

pub data CheckVersionOutcome : Type 0 where
  in_sync : Text → CheckVersionOutcome
  reseed_needed : Text → Text → Text → CheckVersionOutcome
  no_comparable : Incomparable → CheckVersionOutcome
  drift : Text → Text → Severity → Direction → CheckVersionOutcome

-- `v` undefined, empty, unstamped or unavailable is no version.
unfoldable pub real_version : Option Text → Option Text
real_version none = none
real_version (some v) =
    if v == text "" || (v == image_unstamped || v == image_unavailable) then none else some v

abbrev pub is_some : Option Text → Bool
is_some none = false
is_some (some _) = true

abbrev pub same_text : Option Text → Option Text → Bool
same_text none none = true
same_text (some a) (some b) = a == b
same_text _ _ = false

abbrev pub or_else : Option Text → Option Text → Option Text
or_else (some a) _ = some a
or_else none b = b

-- `String(v)`
abbrev pub shown : Option Text → Text
shown none = text "undefined"
shown (some v) = v

unfoldable pub drift_of : Text → Text → CheckVersionOutcome
drift_of wv cmp =
    let w = parse_loose wv in
    let i = parse_loose cmp in
    drift wv cmp (skew_severity w i)
      (elim (compare_to w i) [ gt ↦ wrapper_newer | _ ↦ image_newer ])

-- The part of `classify` after the reseed test, for `cmp = pReal ?? cReal`.
unfoldable pub classify_comparable : CheckVersionInputs → Option Text → CheckVersionOutcome
classify_comparable inputs none =
    if same_text inputs.project_image_version (some image_unstamped)
      || inputs.infra_image_version == image_unstamped
    then no_comparable predates_versioning
    else no_comparable vms_down
classify_comparable inputs (some cmp) =
    if cmp == inputs.wrapper_version
    then in_sync inputs.wrapper_version
    else drift_of inputs.wrapper_version cmp

unfoldable pub classify : CheckVersionInputs → CheckVersionOutcome
classify inputs =
    let p_real = real_version inputs.project_image_version in
    let c_real = real_version (some inputs.infra_image_version) in
    if is_some inputs.project_id
      && (same_text c_real (some inputs.wrapper_version) && not (same_text p_real c_real))
    then reseed_needed inputs.wrapper_version
        (shown (or_else p_real (some (shown inputs.project_image_version)))) (shown c_real)
    else classify_comparable inputs (or_else p_real c_real)
