-- ===== src/Examples/Images.antt =====
-- Images at concrete inputs.
use docker_claudebox.Image.Docker.{Docker, infra_context}
use docker_claudebox.Image.Ensure.{
  ensure, Progress, reseeded, by_version, ensure_present, compare_images, reseed_as, reseed,
  is_newer, profile_of,
}
use docker_claudebox.Image.Ensure.Outcomes.{IsQuiet, IsJustified, ensure-IsJustified}
use docker_claudebox.Image.Check.{
  CheckVersionInputs, classify, drift, image_newer, or_else, real_version,
}
use docker_claudebox.Image.Check.Decisions.{
  IsExplained, IsReseed, NeedsReseed, classify-IsExplained, classify-SameParts,
}
use docker_claudebox.Image.DotMount.{
  decide_mount, mount, looks_like_version, dot_mount_min_image_version,
}
use docker_claudebox.Image.DotMount.Gate.{decide_mount_iff}
use docker_claudebox.Domain.Version.{
  parse_loose, compare_to, leading_number, get_part, strip_v, same,
}
use docker_claudebox.Domain.Version.Order.{IsBefore, SameParts}
use docker_claudebox.Base.{
  Text, arith, false, if◌then◌else◌, is_digit, none, read_number, refl, some, split_on, suc,
  take_run, text, text_eq, trim, true, ℕ, ◌==◌, ◌↔◌, ◌≡◌,
}

-- cb-infra has a newer image than the project; the machine counts the copies.
abbrev docker : Docker ℕ
docker = record {
  image_version =
      λ context image w. (if context == infra_context then text "5.10.0" else text "5.8.0", w);
  image_labels = λ context image w. (none, w);
  save_and_load = λ from image to w. (0, suc w);
  is_running = λ profile w. (true, w);
}

abbrev progress : Progress ℕ
progress = record { begin = λ to w. w; done = λ to rc w. w }

docker-IsQuiet : IsQuiet docker
docker-IsQuiet = record { version = λ c i w. refl; labels = λ c i w. refl; running = λ c w. refl }

abbrev project : Text
project = text "colima-cb-7"

copied :
    ensure docker progress (text "claude") false project 0
    ≡ (reseeded (text "5.8.0") (text "5.10.0") by_version, 1)
unfolding ensure ensure_present compare_images reseed_as reseed is_newer profile_of compare_to
    parse_loose leading_number get_part split_on strip_v trim read_number take_run is_digit
copied = refl

ensure-IsJustified_example :
    IsJustified docker progress
      (text "claude")
      false
      project
      0
      (ensure docker progress (text "claude") false project 0).0
      (ensure docker progress (text "claude") false project 0).1
ensure-IsJustified_example =
    ensure-IsJustified docker progress (text "claude") false docker-IsQuiet project 0

abbrev inputs : CheckVersionInputs
inputs = record {
  wrapper_version = text "5.10.0";
  infra_image_version = text "5.10.0";
  project_image_version = some (text "5.8.0");
  project_id = some (text "7");
}

classify-IsExplained_example :
    IsExplained inputs (classify inputs) × (NeedsReseed inputs → IsReseed (classify inputs))
classify-IsExplained_example = classify-IsExplained inputs

decide_mount_iff_example : (decide_mount (text "5.10.0") ≡ mount) ↔ (
    (looks_like_version (text "5.10.0") ≡ true)
    × ¬ IsBefore (parse_loose (text "5.10.0")) (parse_loose dot_mount_min_image_version))
decide_mount_iff_example = decide_mount_iff (text "5.10.0")

-- The same version, once with a `v`.
abbrev prefixed : CheckVersionInputs
prefixed = record {
  wrapper_version = text "5.10.0";
  infra_image_version = text "v5.10.0";
  project_image_version = none;
  project_id = none;
}

prefixed_real :
    or_else
      (real_version prefixed.project_image_version)
      (real_version (some prefixed.infra_image_version))
    ≡ some (text "v5.10.0")
unfolding real_version
prefixed_real = refl

prefixed_parts : SameParts (parse_loose (text "5.10.0")) (parse_loose (text "v5.10.0"))
unfolding parse_loose leading_number get_part split_on strip_v trim read_number take_run is_digit
prefixed_parts = ground arith

classify-SameParts_example :
    classify prefixed ≡ drift (text "5.10.0") (text "v5.10.0") same image_newer
classify-SameParts_example =
    classify-SameParts prefixed (text "v5.10.0") refl prefixed_real (λ p. cc p) prefixed_parts
