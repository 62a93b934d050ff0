-- ===== src/Image/Check/Decisions.antt =====
-- The outcomes of the version check, and its inputs.
use docker_claudebox.Domain.Version.{same, gt, compare_to, skew_severity, parse_loose}
use docker_claudebox.Domain.Version.Order.{SameParts, compare_to_iff, compare_to_symmetry}
use docker_claudebox.Image.Docker.{image_unstamped}
use docker_claudebox.Image.Check.{
  CheckVersionInputs, CheckVersionOutcome, Direction, in_sync, reseed_needed, no_comparable,
  predates_versioning, vms_down, drift, wrapper_newer, image_newer, real_version, is_some,
  same_text, or_else, shown, drift_of, classify_comparable, classify,
}
use docker_claudebox.Base.{
  Bool, Bool-cases, Option, Text, ap, arith, eq_iff, false, if_intro, inl, inr, none, not, or_false,
  refl, some, text_eq, true, ◌&&◌, ◌==◌, ◌||◌, ◌↔◌, ◌∙◌, ◌≡◌, ◌≢◌, ◌⊎◌,
}

same_text_iff : (a b : Option Text) → (same_text a b ≡ true) ↔ (a ≡ b)
same_text_iff none none = ground arith
same_text_iff none (some b) = ground arith
same_text_iff (some a) none = ground arith
same_text_iff (some a) (some b) = ground (arith, eq_iff a b)

abbrev pub project_real : CheckVersionInputs → Option Text
project_real inputs = real_version inputs.project_image_version

abbrev pub infra_real : CheckVersionInputs → Option Text
infra_real inputs = real_version (some inputs.infra_image_version)

abbrev pub direction_of : Text → Text → Direction
direction_of w i = elim (compare_to (parse_loose w) (parse_loose i)) [
  | gt ↦ wrapper_newer
  | _ ↦ image_newer
]

-- `IsExplained inputs outcome`: what holds of the inputs when this is the outcome.
abbrev pub IsExplained : CheckVersionInputs → CheckVersionOutcome → Type 0
IsExplained x (reseed_needed w p i) =
    (x.project_id ≢ none)
    × (infra_real x ≡ some x.wrapper_version)
    × (project_real x ≢ infra_real x)
    × (w ≡ x.wrapper_version)
    × (i ≡ x.wrapper_version)
IsExplained x (no_comparable predates_versioning) =
    (project_real x ≡ none)
    × (infra_real x ≡ none)
    × ((x.project_image_version ≡ some image_unstamped) ⊎ (x.infra_image_version ≡ image_unstamped))
IsExplained x (no_comparable vms_down) =
    (project_real x ≡ none)
    × (infra_real x ≡ none)
    × (x.project_image_version ≢ some image_unstamped)
    × (x.infra_image_version ≢ image_unstamped)
IsExplained x (in_sync v) =
    (v ≡ x.wrapper_version)
    × (or_else (project_real x) (infra_real x) ≡ some v)
    × (x.project_id ≢ none → project_real x ≡ some v)
IsExplained x (drift w i s d) =
    (w ≡ x.wrapper_version)
    × (i ≢ w)
    × (or_else (project_real x) (infra_real x) ≡ some i)
    × (s ≡ skew_severity (parse_loose w) (parse_loose i))
    × (d ≡ direction_of w i)

-- The reseed test of `classify` failed.
abbrev NoReseed : CheckVersionInputs → Type 0
NoReseed x =
    (is_some x.project_id
      && (same_text (infra_real x) (some x.wrapper_version)
          && not (same_text (project_real x) (infra_real x))))
    ≡ false

ne_test : (a b : Text) → a ≢ b → (a == b) ≡ false
ne_test a b h = ground (arith, eq_iff a b)

is_some-ne : (o : Option Text) → is_some o ≡ true → o ≢ none
is_some-ne none h = cc
is_some-ne (some a) h = λ e. cc e

-- With a project, the version compared with is the project's own.
in_sync-project :
    (x : CheckVersionInputs)
    → NoReseed x
    → or_else (project_real x) (infra_real x) ≡ some x.wrapper_version
    → x.project_id ≢ none
    → project_real x ≡ some x.wrapper_version
in_sync-project x h e p = go (project_real x) refl x.project_id refl
  where
    go :
        (o : Option Text)
        → project_real x ≡ o
        → (i : Option Text) → x.project_id ≡ i
        → project_real x ≡ some x.wrapper_version
    go o q none r = absurd (p r)
    go (some a) q (some i) r = q ∙ (rw q at e)
    go none q (some i) r =
        let f : infra_real x ≡ some x.wrapper_version = (rw q at e) in
        let h' =
          (rw (r, q, f, (same_text_iff (some x.wrapper_version) (some x.wrapper_version)).1 refl) at
            h) in
        cc h'

or_else-none : (a b : Option Text) → or_else a b ≡ none → (a ≡ none) × (b ≡ none)
or_else-none none b h = (refl, h)
or_else-none (some a) b h = cc

or_true : (a b : Bool) → (a || b) ≡ true → (a ≡ true) ⊎ (b ≡ true)
or_true a b h = ground arith

comparable-IsExplained :
    (x : CheckVersionInputs) (o : Option Text)
    → or_else (project_real x) (infra_real x) ≡ o
    → NoReseed x
    → IsExplained x (classify_comparable x o)
unfolding classify_comparable drift_of
comparable-IsExplained x none e h =
    let (no_project, no_infra) = or_else-none (project_real x) (infra_real x) e in
    let project_test = same_text_iff x.project_image_version (some image_unstamped) in
    let infra_test = eq_iff x.infra_image_version image_unstamped in
    if_intro (IsExplained x)
      (same_text x.project_image_version (some image_unstamped)
        || x.infra_image_version == image_unstamped)
      (λ s. (
        no_project,
        no_infra,
        elim (or_true _ _ s) [ inl p ↦ inl (project_test.0 p) | inr i ↦ inr (infra_test.0 i) ],
      ))
      (λ n.
        let (p, i) =
          or_false (same_text x.project_image_version (some image_unstamped))
            (x.infra_image_version == image_unstamped) n in
        (no_project, no_infra, λ q. cc (project_test.1 q, p), λ q. cc (infra_test.1 q, i)))
comparable-IsExplained x (some cmp) e h =
    if_intro (IsExplained x) (cmp == x.wrapper_version)
      (λ s.
        let t = (eq_iff cmp x.wrapper_version).0 s in
        (refl, e ∙ ap some t, in_sync-project x h (e ∙ ap some t)))
      (λ n. (refl, λ q. ground (arith, eq_iff cmp x.wrapper_version), e, refl, refl))

and_true : (a b : Bool) → (a && b) ≡ true → (a ≡ true) × (b ≡ true)
and_true a b h = ground arith

shown-some : (o : Option Text) (v : Text) → o ≡ some v → shown o ≡ v
shown-some o v e = rw e

classify_lem : (x : CheckVersionInputs) → IsExplained x (classify x)
unfolding classify
classify_lem x =
    if_intro (IsExplained x)
      (is_some x.project_id
        && (same_text (infra_real x) (some x.wrapper_version)
            && not (same_text (project_real x) (infra_real x))))
      (λ h.
        let (given, rest) = and_true _ _ h in
        let (level, behind) = and_true _ _ rest in
        let same_infra = (same_text_iff (infra_real x) (some x.wrapper_version)).0 level in
        (
          is_some-ne x.project_id given,
          same_infra,
          λ q. cc ((same_text_iff (project_real x) (infra_real x)).1 q, behind),
          refl,
          shown-some (infra_real x) x.wrapper_version same_infra,
        ))
      (comparable-IsExplained x (or_else (project_real x) (infra_real x)) refl)

-- A project is given, cb-infra's image has the wrapper's version and the project's has not.
pub record NeedsReseed (x : CheckVersionInputs) : Type 0 where
  pub project : Text
  pub given : x.project_id ≡ some project
  pub infra : infra_real x ≡ some x.wrapper_version
  pub behind : project_real x ≢ some x.wrapper_version

abbrev pub IsReseed : CheckVersionOutcome → Type 0
IsReseed (reseed_needed w p i) = Unit
IsReseed _ = ⊥

different_text : (a b : Option Text) → a ≢ b → same_text a b ≡ false
different_text a b h = elim (Bool-cases (same_text a b)) [
  | inl level ↦ absurd (h ((same_text_iff a b).0 level))
  | inr other ↦ other
]

NeedsReseed-IsReseed : (x : CheckVersionInputs) → NeedsReseed x → IsReseed (classify x)
unfolding classify
NeedsReseed-IsReseed x n =
    rw
      (
        n.given,
        n.infra,
        (same_text_iff (some x.wrapper_version) (some x.wrapper_version)).1 refl,
        different_text (project_real x) (some x.wrapper_version) n.behind,
      )
      tt

-- Every outcome of the check is explained by its inputs: a reseed is called for only when a project
-- is given, cb-infra's image has the wrapper's version and the project's has not; nothing is
-- comparable when neither image has a version; in sync means that the version compared with, the
-- project's own where there is one, is the wrapper's; and a drift names another version, its
-- severity and its direction. And whenever a reseed is due, it is called for.
pub classify-IsExplained :
    (x : CheckVersionInputs) → IsExplained x (classify x) × (NeedsReseed x → IsReseed (classify x))
classify-IsExplained x = (classify_lem x, NeedsReseed-IsReseed x)

-- Two version texts that differ as texts but have the same components (a suffix, a leading v) are
-- reported as a drift of severity `same` with the image the newer one.
pub classify-SameParts :
    (x : CheckVersionInputs) (v : Text)
    → x.project_id ≡ none
    → or_else (project_real x) (infra_real x) ≡ some v
    → v ≢ x.wrapper_version
    → SameParts (parse_loose x.wrapper_version) (parse_loose v)
    → classify x ≡ drift x.wrapper_version v same image_newer
unfolding classify classify_comparable drift_of
classify-SameParts x v no_project found other parts =
    let level = (compare_to_iff (parse_loose x.wrapper_version) (parse_loose v)).2.1 parts in
    let no_skew = (compare_to_symmetry (parse_loose x.wrapper_version) (parse_loose v)).2.1 level in
    rw (no_project, found, ne_test v x.wrapper_version other, level, no_skew)
