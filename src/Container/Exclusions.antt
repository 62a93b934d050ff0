-- ===== src/Container/Exclusions.antt =====
-- services/DotExclusions.ts: the directories of the home that are kept out of the dot directory.
use docker_claudebox.Base.{
  Bool, Distinct, List, Text, [], all, all-append, arith, contains, false, if◌then◌else◌, is_digit,
  is_letter, map, nat_beq, refl, text, text_eq, true, ℕ, ◌&&◌, ◌++◌, ◌==◌, ◌||◌, ◌∙◌, ◌∷◌, ◌≡◌,
}

abbrev pub dot_excluded_paths : List Text
dot_excluded_paths =
    text ".cache" ∷ text ".npm" ∷ text ".local/share/pnpm/store" ∷ text "go/pkg/mod" ∷ []

unfoldable pub dot_volume_prefix : Text → Text
dot_volume_prefix project_id = text "dridock-" ++ (project_id ++ text "-")

pub record DotVolume : Type 0 where
  pub name : Text
  pub container : Text

-- `p.replace(/^\./, "")`
unfoldable pub drop_dot : Text → Text
drop_dot [] = []
drop_dot (c ∷ s) = if nat_beq c b'.' then s else c ∷ s

-- `replace(/[/.]/g, "-")`, of one code unit
unfoldable pub flatten_unit : ℕ → ℕ
flatten_unit c = if nat_beq c b'/' || nat_beq c b'.' then b'-' else c

unfoldable pub dot_volume : Text → Text → Text → DotVolume
unfolding dot_volume_prefix drop_dot flatten_unit
dot_volume project_id home p = record {
  name = dot_volume_prefix project_id ++ map flatten_unit (drop_dot p);
  container = home ++ (text "/" ++ p);
}

unfoldable pub dot_exclusion_volumes : Text → Text → List DotVolume
unfolding dot_volume
dot_exclusion_volumes project_id home = map (dot_volume project_id home) dot_excluded_paths

-- `[a-zA-Z0-9_.-]`
unfoldable pub is_volume_char : ℕ → Bool
is_volume_char c =
    is_letter c || (is_digit c || (nat_beq c b'_' || (nat_beq c b'.' || nat_beq c b'-')))

-- `[a-zA-Z0-9][a-zA-Z0-9_.-]*`
unfoldable pub is_volume_name : Text → Bool
is_volume_name [] = false
is_volume_name (c ∷ s) = (is_letter c || is_digit c) && all is_volume_char s

abbrev pub volume_names : Text → Text → List Text
volume_names project_id home = map (λ v. v.name) (dot_exclusion_volumes project_id home)

-- Names that docker takes, none of them twice.
pub record AreVolumeNames (names : List Text) : Type 0 where
  pub valid : all is_volume_name names ≡ true
  pub distinct : Distinct names

dot_volume_prefix-valid :
    (project_id flat : Text)
    → all is_volume_char project_id ≡ true
    → all is_volume_char flat ≡ true
    → is_volume_name (dot_volume_prefix project_id ++ flat) ≡ true
unfolding is_volume_name dot_volume_prefix is_volume_char is_letter is_digit
dot_volume_prefix-valid project_id flat h k =
    all-append is_volume_char (project_id ++ text "-") flat
      (all-append is_volume_char project_id (text "-") h refl) k

-- A common front makes no difference to a test of equality.
append_same : (p s t : Text) → ((p ++ s) == (p ++ t)) ≡ (s == t)
append_same [] s t = refl
append_same (c ∷ p) s t = ground (arith, append_same p s t)

prefixed-valid :
    (project_id : Text) (flats : List Text)
    → all is_volume_char project_id ≡ true
    → all (all is_volume_char) flats ≡ true
    → all is_volume_name (map (λ f. dot_volume_prefix project_id ++ f) flats) ≡ true
prefixed-valid project_id [] h k = refl
prefixed-valid project_id (f ∷ flats) h k =
    rw (dot_volume_prefix-valid project_id f h (ground (arith, k)))
      (prefixed-valid project_id flats h (ground (arith, k)))

prefixed-contains :
    (p f : Text) (flats : List Text)
    → contains (map (λ g. p ++ g) flats) (p ++ f) ≡ contains flats f
prefixed-contains p f [] = refl
prefixed-contains p f (g ∷ flats) = rw (append_same p g f, prefixed-contains p f flats) refl

prefixed-Distinct :
    (p : Text) (flats : List Text) → Distinct flats → Distinct (map (λ g. p ++ g) flats)
prefixed-Distinct p [] d = d
prefixed-Distinct p (f ∷ flats) (fresh, d) =
    (prefixed-contains p f flats ∙ fresh, prefixed-Distinct p flats d)

abbrev flat_paths : List Text
flat_paths = text "cache" ∷ text "npm" ∷ text "local-share-pnpm-store" ∷ text "go-pkg-mod" ∷ []

flat_paths-Distinct : Distinct flat_paths
flat_paths-Distinct = (refl, (refl, (refl, (refl, tt))))

valid_paths : all (all is_volume_char) flat_paths ≡ true
unfolding is_volume_char is_letter is_digit
valid_paths = refl

-- When the project's identifier has only characters that a volume's name may have, every volume that
-- stands for an excluded directory has a name that docker takes, and no two have the same.
pub dot_exclusion_volumes-AreVolumeNames :
    (project_id home : Text)
    → all is_volume_char project_id ≡ true
    → AreVolumeNames (volume_names project_id home)
unfolding dot_exclusion_volumes dot_volume drop_dot flatten_unit
dot_exclusion_volumes-AreVolumeNames project_id home h = record {
  valid = prefixed-valid project_id flat_paths h valid_paths;
  distinct = prefixed-Distinct (dot_volume_prefix project_id) flat_paths flat_paths-Distinct;
}
