-- ===== src/Image/DotMount/Gate.antt =====
-- When the gate lets the dot directory be mounted.
use docker_claudebox.Domain.Version.{Comparison, gt, lt, eq, is_digits, compare_to, parse_loose}
use docker_claudebox.Domain.Version.Order.{IsBefore, compare_to_iff}
use docker_claudebox.Image.Docker.{image_unstamped, image_unavailable}
use docker_claudebox.Image.DotMount.{
  DotMountDecision, dot_mount_min_image_version, mount, skip_older, looks_like_version,
  decide_mount, after_digits, after_dot,
}
use docker_claudebox.Base.{
  Bool-cases, Text, arith, eq_iff, false, if_intro, inl, inr, is_digit, refl, take_run, text_eq,
  true, ◌==◌, ◌||◌, ◌↔◌, ◌≡◌, ◌≢◌,
}

unavailable-not_version : looks_like_version image_unavailable ≡ false
unfolding looks_like_version after_digits after_dot take_run is_digits is_digit
unavailable-not_version = refl

unstamped-not_version : looks_like_version image_unstamped ≡ false
unfolding looks_like_version after_digits after_dot take_run is_digits is_digit
unstamped-not_version = refl

version-known :
    (raw : Text)
    → looks_like_version raw ≡ true
    → (raw == image_unavailable || raw == image_unstamped) ≡ false
version-known raw h = grind (
  arith,
  eq_iff raw image_unavailable,
  eq_iff raw image_unstamped,
  unavailable-not_version,
  unstamped-not_version,
)

lt_cases :
    (c : Comparison) (a : DotMountDecision)
    → a ≢ mount
    → (elim c [ lt ↦ a | _ ↦ mount ] ≡ mount) ↔ (c ≢ lt)
lt_cases lt a h = (λ e. absurd (h e), λ n. absurd (n refl))
lt_cases gt a h = (λ e. λ p. cc p, λ n. refl)
lt_cases eq a h = (λ e. λ p. cc p, λ n. refl)

-- The gate says `mount` exactly when the image's version has the shape of one and is not before
-- 5.1.0 in the order of versions; so never for an image that is unavailable or unstamped.
pub decide_mount_iff :
    (raw : Text)
    → (decide_mount raw ≡ mount) ↔ (
        (looks_like_version raw ≡ true)
        × ¬ IsBefore (parse_loose raw) (parse_loose dot_mount_min_image_version))
unfolding decide_mount
decide_mount_iff raw =
    let order = (compare_to_iff (parse_loose raw) (parse_loose dot_mount_min_image_version)).0 in
    elim (Bool-cases (looks_like_version raw)) [
      | inl shaped ↦
          let cases =
            lt_cases (compare_to (parse_loose raw) (parse_loose dot_mount_min_image_version))
              (skip_older raw) (λ e. cc e) in
          rw (version-known raw shaped, shaped)
            (λ e. (refl, λ b. cases.0 e (order.1 b)), λ p. cases.1 (λ q. p.1 (order.0 q)))
      | inr other ↦ rw other (
          if_intro
            (λ d. (d ≡ mount) ↔ (
              (false ≡ true)
              × ¬ IsBefore (parse_loose raw) (parse_loose dot_mount_min_image_version)))
            (raw == image_unavailable || raw == image_unstamped) (λ _. (λ e. cc e, λ p. cc p.0))
            (λ _. (λ e. cc e, λ p. cc p.0)))
    ]
