-- ===== src/Image/Ensure/Outcomes.antt =====
-- The outcomes of ImageEnsureService, when asking docker and colima changes nothing.
use docker_claudebox.Image.Docker.{
  Docker, image_unstamped, image_unavailable, infra_profile, infra_context,
}
use docker_claudebox.Image.Ensure.{
  ImageEnsureOutcome, Reason, already_current, unverified, reseeded, first_seed, failed,
  save_load_rc, by_version, by_cli, forced, Progress, is_newer, reseed, reseed_as, claude_cli,
  decide_by_cli, compare_images, ensure_present, ensure_absent, ensure,
}
use docker_claudebox.Base.{
  Bool, Bool-cases, Option, Text, ap, arith, eq_iff, false, if_intro, inl, inr, nat_beq, none, not,
  or_false, refl, some, sym, text_eq, true, ℕ, ◌&&◌, ◌==◌, ◌||◌, ◌∙◌, ◌≡◌, ◌≢◌,
}

-- Inspecting an image and listing the machines are read-only.
pub record IsQuiet {W : Type 0} (docker : Docker W) : Type 0 where
  pub version : (c i : Text) (w : W) → (docker.image_version c i w).1 ≡ w
  pub labels : (c i : Text) (w : W) → (docker.image_labels c i w).1 ≡ w
  pub running : (c : Text) (w : W) → (docker.is_running c w).1 ≡ w

module _ {W : Type 0} (docker : Docker W) (progress : Progress W) (image : Text)
    (force : Bool) where
  abbrev version_in : Text → W → Text
  version_in c w = (docker.image_version c image w).0

  abbrev cli_in : Text → W → Option Text
  cli_in c w = (claude_cli docker progress image force c w).0

  abbrev copy : Text → W → ℕ × W
  copy target w = reseed docker progress image force target w

  -- The version `v` was compared with a version that cb-infra holds, and is level with it: cb-infra
  -- runs, its version is a real one and not newer, and where the two are the same so are the CLIs.
  pub record IsLevel (target : Text) (v : Text) (w : W) : Type 0 where
    pub ours : version_in target w ≡ v
    pub running : (docker.is_running infra_profile w).0 ≡ true
    pub available : version_in infra_context w ≢ image_unavailable
    pub stamped : version_in infra_context w ≢ image_unstamped
    pub not_newer : is_newer (version_in infra_context w) v ≡ false
    pub same_cli : v ≡ version_in infra_context w → cli_in infra_context w ≡ cli_in target w

  -- `IsJustified target w outcome w'`: the outcome, for the machine `w` before and `w'` after.
  abbrev pub IsJustified : Text → W → ImageEnsureOutcome → W → Type 0
  IsJustified target w (already_current v) w' = (w' ≡ w) × IsLevel target v w
  IsJustified target w (unverified v r) w' = w' ≡ w
  IsJustified target w (reseeded a b r) w' = ((copy target w).0 ≡ 0) × (w' ≡ (copy target w).1)
  IsJustified target w (first_seed v) w' = ((copy target w).0 ≡ 0) × (w' ≡ (copy target w).1)
  IsJustified target w (failed (save_load_rc rc)) w' =
      ((copy target w).0 ≡ rc) × (rc ≢ 0) × (w' ≡ (copy target w).1)
  IsJustified target w (failed _) w' = w' ≡ w

  module _ (quiet : IsQuiet docker) where
    claude_cli-quiet : (c : Text) (w : W) → (claude_cli docker progress image force c w).1 ≡ w
    unfolding claude_cli
    claude_cli-quiet c w = ground (arith, quiet.labels c image w)

    reseeded-IsJustified :
        (target a b : Text) (w : W) (r : Reason)
        → IsJustified target w
            (reseed_as docker progress image force target (reseeded a b r) w).0
            (reseed_as docker progress image force target (reseeded a b r) w).1
    unfolding reseed_as
    reseeded-IsJustified target a b w r = elim (Bool-cases (nat_beq (copy target w).0 0)) [
      | inl fine ↦ rw fine (ground arith)
      | inr bad ↦ rw bad (ground arith)
    ]

    first_seed-IsJustified :
        (target v : Text) (w : W)
        → IsJustified target w
            (reseed_as docker progress image force target (first_seed v) w).0
            (reseed_as docker progress image force target (first_seed v) w).1
    unfolding reseed_as
    first_seed-IsJustified target v w = elim (Bool-cases (nat_beq (copy target w).0 0)) [
      | inl fine ↦ rw fine (ground arith)
      | inr bad ↦ rw bad (ground arith)
    ]

    decide_by_cli-IsJustified :
        (target ours theirs : Text) (ic tc : Option Text) (w : W)
        → (ic ≡ tc → IsLevel target ours w)
        → IsJustified target w
            (decide_by_cli docker progress image force target ours theirs ic tc w).0
            (decide_by_cli docker progress image force target ours theirs ic tc w).1
    unfolding decide_by_cli
    decide_by_cli-IsJustified target ours theirs none none w level = (refl, level refl)
    decide_by_cli-IsJustified target ours theirs none (some t) w level = refl
    decide_by_cli-IsJustified target ours theirs (some i) none w level = refl
    decide_by_cli-IsJustified target ours theirs (some i) (some t) w level =
        elim (Bool-cases (i == t)) [
          | inl equal ↦ rw equal (refl, level (ap some ((eq_iff i t).0 equal)))
          | inr other ↦ rw other (reseeded-IsJustified target ours theirs w (by_cli t i))
        ]

    ne_of_test : (a b : Text) → (a == b) ≡ false → a ≢ b
    ne_of_test a b h e = ground (arith, eq_iff a b)

    -- The outcome of a step, with the machine that it leaves.
    abbrev Fits : Text → W → ImageEnsureOutcome × W → Type 0
    Fits target w x = IsJustified target w x.0 x.1

    compare_clis-Fits :
        (target ours theirs : Text) (w : W)
        → (cli_in infra_context w ≡ cli_in target w → IsLevel target ours w)
        → Fits target w (
            let (infra_cli, w₁) = claude_cli docker progress image force infra_context w in
            let (target_cli, w₂) = claude_cli docker progress image force target w₁ in
            decide_by_cli docker progress image force target ours theirs infra_cli target_cli w₂)
    compare_clis-Fits target ours theirs w level = rw (claude_cli-quiet infra_context w) (
        rw (claude_cli-quiet target w) (
          decide_by_cli-IsJustified target ours theirs (cli_in infra_context w) (cli_in target w) w
            level))

    compare_images-Fits :
        (target ours theirs : Text) (w : W)
        → ours ≡ version_in target w
        → theirs ≡ version_in infra_context w
        → (docker.is_running infra_profile w).0 ≡ true
        → Fits target w (compare_images docker progress image force target ours theirs w)
    unfolding compare_images
    compare_images-Fits target ours theirs w e f runs =
        let level =
          λ (h : (theirs == image_unavailable || theirs == image_unstamped) ≡ false)
              (k : (ours == image_unstamped || is_newer theirs ours) ≡ false)
              (c : ours ≡ version_in infra_context w → cli_in infra_context w ≡ cli_in target w).
            let (a, s) = or_false _ _ h in
            let (_, n) = or_false (ours == image_unstamped) (is_newer theirs ours) k in
            let l : IsLevel target ours w = record {
              ours = sym e;
              running = runs;
              available = rw (← f) (ne_of_test theirs image_unavailable a);
              stamped = rw (← f) (ne_of_test theirs image_unstamped s);
              not_newer = rw (← f) n;
              same_cli = c;
            } in
            l in
        if_intro (Fits target w) (force && not (theirs == image_unavailable))
          (λ _. reseeded-IsJustified target ours theirs w forced)
          (λ _.
            if_intro (Fits target w) (theirs == image_unavailable || theirs == image_unstamped)
              (λ _. refl)
              (λ h.
                if_intro (Fits target w) (ours == image_unstamped || is_newer theirs ours)
                  (λ _. reseeded-IsJustified target ours theirs w by_version)
                  (λ k.
                    if_intro (Fits target w) (ours == theirs)
                      (λ _. compare_clis-Fits target ours theirs w (λ c. level h k (λ _. c)))
                      (λ d.
                        (refl, level h k (λ p. absurd (ne_of_test ours theirs d (p ∙ sym f))))))))

    ensure_present-Fits :
        (target ours : Text) (w : W)
        → ours ≡ version_in target w
        → Fits target w (ensure_present docker progress image force target ours w)
    unfolding ensure_present
    ensure_present-Fits target ours w e = rw (quiet.running infra_profile w) (
        if_intro (Fits target w) (not (docker.is_running infra_profile w).0) (λ _. refl)
          (λ h.
            rw (quiet.version infra_context image w) (
              compare_images-Fits target ours (version_in infra_context w) w e refl
                (ground arith))))

    ensure_absent-Fits :
        (target : Text) (w : W) → Fits target w (ensure_absent docker progress image force target w)
    unfolding ensure_absent
    ensure_absent-Fits target w = rw (quiet.running infra_profile w) (
        if_intro (Fits target w) (not (docker.is_running infra_profile w).0) (λ _. refl)
          (λ h. rw (quiet.version infra_context image w) (
            if_intro (Fits target w) (version_in infra_context w == image_unavailable) (λ _. refl)
              (λ _. first_seed-IsJustified target (version_in infra_context w) w))))

    -- When inspecting is read-only: `already_current` is reported only for an image that was
    -- compared with a real version in a running cb-infra that is not newer and, where the two
    -- versions are the same, has the same CLI label;
    -- `unverified` and a refusal leave the machine as it was; `reseeded` and `first_seed` are
    -- reported only after a copy that returned 0, and a copy that did not is reported as failed.
    pub ensure-IsJustified :
        (target : Text) (w : W)
        → IsJustified target w
            (ensure docker progress image force target w).0
            (ensure docker progress image force target w).1
    unfolding ensure
    ensure-IsJustified target w = rw (quiet.version target image w) (
        if_intro (Fits target w) (not (version_in target w == image_unavailable))
          (λ _. ensure_present-Fits target (version_in target w) w refl)
          (λ _. ensure_absent-Fits target w))
