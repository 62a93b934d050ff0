-- ===== src/Image/Ensure.antt =====
-- services/ImageEnsureService.ts: seed the image into a context, or copy it again when it drifted.
pub mod Outcomes
use docker_claudebox.Domain.Version.{gt, Comparison, compare_to, parse_loose}
use docker_claudebox.Image.Docker.{
  Docker, image_unstamped, image_unavailable, infra_profile, infra_context,
}
use docker_claudebox.Base.{
  Bool, Option, Text, [], false, if◌then◌else◌, leb, lookup, nat_beq, none, not, some, text,
  text_beq, text_eq, trim, true, ℕ, ◌&&◌, ◌+◌, ◌==◌, ◌||◌, ◌∷◌,
}

abbrev pub claude_cli_label : Text
claude_cli_label = text "org.dridock.claude-version"

-- Lower case of ASCII letters; the values compared with have no others.
unfoldable pub to_lower : Text → Text
to_lower [] = []
to_lower (c ∷ s) = (if leb b'A' c && leb c b'Z' then c + 32 else c) ∷ to_lower s

-- The second component is the warning that the code writes.
unfoldable pub parse_force_reseed : Option Text → Bool × Option Text
parse_force_reseed none = (false, none)
parse_force_reseed (some raw) =
    let v = to_lower (trim raw) in
    if raw == text ""
    then (false, none)
    else if v == text "1" || (v == text "true" || v == text "yes")
    then (true, none)
    else if v == text "0" || (v == text "false" || v == text "no")
    then (false, none)
    else (false, some raw)

pub data Unverified : Type 0 where
  infra_stopped : Unverified
  infra_holds : Text → Unverified
  project_unstamped infra_unstamped : Unverified

pub data Reason : Type 0 where
  by_version forced : Reason
  by_cli : Text → Text → Reason

pub data Failure : Type 0 where
  save_load_rc : ℕ → Failure
  infra_not_running image_not_present : Failure

pub data ImageEnsureOutcome : Type 0 where
  already_current : Text → ImageEnsureOutcome
  unverified : Text → Unverified → ImageEnsureOutcome
  reseeded : Text → Text → Reason → ImageEnsureOutcome
  first_seed : Text → ImageEnsureOutcome
  failed : Failure → ImageEnsureOutcome

-- The progress reporter, told of the seeding's begin and of its exit code.
pub record Progress (W : Type 0) : Type 0 where
  pub begin : Text → W → W
  pub done : Text → ℕ → W → W

unfoldable pub is_newer : Text → Text → Bool
is_newer a b = elim (compare_to (parse_loose a) (parse_loose b)) [ gt ↦ true | _ ↦ false ]

-- `targetContext.replace(/^colima-/, "")`
unfoldable pub profile_of : Text → Text
profile_of (c ∷ (o ∷ (l ∷ (i ∷ (m ∷ (a ∷ (d ∷ s))))))) =
    if text_beq (c ∷ o ∷ l ∷ i ∷ m ∷ a ∷ d ∷ []) (text "colima-")
    then s
    else c ∷ o ∷ l ∷ i ∷ m ∷ a ∷ d ∷ s
profile_of s = s

module _ {W : Type 0} (docker : Docker W) (progress : Progress W) (image : Text)
    (force : Bool) where
  unfoldable pub reseed : Text → W → ℕ × W
  reseed target w =
      let to = profile_of target in
      let (rc, w') = docker.save_and_load infra_context image target (progress.begin to w) in
      (rc, progress.done to rc w')

  -- The copy, and its outcome unless it fails.
  unfoldable pub reseed_as : Text → ImageEnsureOutcome → W → ImageEnsureOutcome × W
  reseed_as target outcome w =
      let (rc, w') = reseed target w in
      if not (nat_beq rc 0) then (failed (save_load_rc rc), w') else (outcome, w')

  -- The pinned version on the label, if there is one and it is not empty.
  unfoldable pub claude_cli : Text → W → Option Text × W
  claude_cli context w =
      let (labels, w') = docker.image_labels context image w in
      elim labels [
        | none ↦ (none, w')
        | some l ↦ elim (lookup claude_cli_label l) [
          | none ↦ (none, w')
          | some v ↦ (if v == text "" then none else some v, w')
        ]
      ]

  -- The images have the same version: their CLI labels decide.
  unfoldable pub decide_by_cli :
      Text → Text → Text → Option Text → Option Text → W → ImageEnsureOutcome × W
  decide_by_cli target ours theirs none none w = (already_current ours, w)
  decide_by_cli target ours theirs none (some t) w = (unverified ours infra_unstamped, w)
  decide_by_cli target ours theirs (some i) none w = (unverified ours project_unstamped, w)
  decide_by_cli target ours theirs (some i) (some t) w =
      if not (i == t)
      then reseed_as target (reseeded ours theirs (by_cli t i)) w
      else (already_current ours, w)

  -- The target has the image, of version `ours`; cb-infra runs and reports `theirs`.
  unfoldable pub compare_images : Text → Text → Text → W → ImageEnsureOutcome × W
  compare_images target ours theirs w =
      if force && not (theirs == image_unavailable)
      then reseed_as target (reseeded ours theirs forced) w
      else if theirs == image_unavailable || theirs == image_unstamped
      then (unverified ours (infra_holds theirs), w)
      else if ours == image_unstamped || is_newer theirs ours
      then reseed_as target (reseeded ours theirs by_version) w
      else if ours == theirs
      then (let (infra_cli, w₁) = claude_cli infra_context w in
          let (target_cli, w₂) = claude_cli target w₁ in
          decide_by_cli target ours theirs infra_cli target_cli w₂)
      else (already_current ours, w)

  unfoldable pub ensure_present : Text → Text → W → ImageEnsureOutcome × W
  ensure_present target ours w =
      let (running, w₁) = docker.is_running infra_profile w in
      if not running
      then (unverified ours infra_stopped, w₁)
      else (let (theirs, w₂) = docker.image_version infra_context image w₁ in
          compare_images target ours theirs w₂)

  unfoldable pub ensure_absent : Text → W → ImageEnsureOutcome × W
  ensure_absent target w =
      let (running, w₁) = docker.is_running infra_profile w in
      if not running
      then (failed infra_not_running, w₁)
      else (let (theirs, w₂) = docker.image_version infra_context image w₁ in
          if theirs == image_unavailable
          then (failed image_not_present, w₂)
          else reseed_as target (first_seed theirs) w₂)

  unfoldable pub ensure : Text → W → ImageEnsureOutcome × W
  ensure target w =
      let (ours, w₁) = docker.image_version target image w in
      if not (ours == image_unavailable)
      then ensure_present target ours w₁
      else ensure_absent target w₁

-- What `asCallback` returns: whether the caller may go on, and the note to write.
unfoldable pub callback_result : ImageEnsureOutcome → Bool × Option Unverified
callback_result (already_current v) = (true, none)
callback_result (reseeded a b r) = (true, none)
callback_result (first_seed v) = (true, none)
callback_result (unverified v r) = (true, some r)
callback_result (failed r) = (false, none)
