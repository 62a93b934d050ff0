-- ===== src/Settings/Features/Names.antt =====
-- The features that are read.
use docker_claudebox.Settings.Features.{
  is_block_header, flow_list, block_item, emit, emit_all, block_line, feature_line, feature_lines,
  parse_features,
}
use docker_claudebox.Base.{
  All, All-append, Bool, Distinct, List, Option, Text, [], all, arith, contains, eq_iff, false,
  if_intro, is_name_char, keep, lines_of, none, or_false, refl, some, split_on, text, text_eq, trim,
  true, ℕ, ◌++◌, ◌==◌, ◌||◌, ◌∙◌, ◌∷◌, ◌≡◌, ◌≢◌,
}

-- A name of letters, digits, dashes and underscores, not empty.
abbrev pub IsName : Text → Type 0
IsName t = (t ≢ []) × (all is_name_char t ≡ true)

-- Names, none of them twice.
abbrev pub AreNames : List Text → Type 0
AreNames names = Distinct names × All IsName names

all-keep : (p : ℕ → Bool) (s : Text) → all p (keep p s) ≡ true
all-keep p [] = refl
all-keep p (c ∷ s) =
    if_intro (λ t. all p t ≡ true) (p c) (λ kept. ground (arith, kept, all-keep p s))
      (λ _. all-keep p s)

contains-append_one :
    (xs : List Text) (x v : Text) → contains (xs ++ (x ∷ [])) v ≡ (contains xs v || x == v)
contains-append_one [] x v = ground arith
contains-append_one (y ∷ xs) x v = ground (arith, contains-append_one xs x v)

Distinct-append_one :
    (xs : List Text) (x : Text) → Distinct xs → contains xs x ≡ false → Distinct (xs ++ (x ∷ []))
Distinct-append_one [] x d h = (refl, tt)
Distinct-append_one (y ∷ xs) x d h =
    let (apart, later) = or_false (y == x) (contains xs x) h in
    (
      contains-append_one xs x y ∙ ground (arith, d.0, apart, eq_iff x y, eq_iff y x),
      Distinct-append_one xs x d.1 later,
    )

emit-AreNames : (found : List Text) (raw : Text) → AreNames found → AreNames (emit found raw)
unfolding emit
emit-AreNames found raw h =
    if_intro AreNames (keep is_name_char raw == text "" || contains found (keep is_name_char raw))
      (λ _. h)
      (λ fresh.
        let (given, new) = or_false (keep is_name_char raw == text "") _ fresh in
        (
          Distinct-append_one found _ h.0 new,
          All-append IsName found _ h.1 (
              (
                (
                  λ p. ground (arith, given, eq_iff (keep is_name_char raw) (text "")),
                  all-keep is_name_char raw,
                ),
                tt,
              )),
        ))

emit_all-AreNames : (found raws : List Text) → AreNames found → AreNames (emit_all found raws)
unfolding emit_all
emit_all-AreNames found [] h = h
emit_all-AreNames found (raw ∷ raws) h =
    emit_all-AreNames (emit found (trim raw)) raws (emit-AreNames found (trim raw) h)

block_line-AreNames :
    (found : List Text) (o : Option Text) (line : Text)
    → AreNames found
    → AreNames (block_line found o line).0
unfolding block_line
block_line-AreNames found none line h = h
block_line-AreNames found (some name) line h = emit-AreNames found (trim name) h

feature_line-AreNames :
    (found : List Text) (in_block : Bool) (o : Option Text) (line : Text)
    → AreNames found
    → AreNames (feature_line found in_block o line).0
unfolding feature_line
feature_line-AreNames found in_block (some names) line h =
    emit_all-AreNames found (split_on b',' names) h
feature_line-AreNames found in_block none line h =
    if_intro (λ (r : List Text × Bool). AreNames r.0) (is_block_header line) (λ _. h)
      (λ _.
        if_intro (λ (r : List Text × Bool). AreNames r.0) in_block
          (λ _. block_line-AreNames found (block_item line) line h) (λ _. h))

feature_lines-AreNames :
    (lines found : List Text) (in_block : Bool)
    → AreNames found
    → AreNames (feature_lines found in_block lines)
unfolding feature_lines
feature_lines-AreNames [] found in_block h = h
feature_lines-AreNames (line ∷ lines) found in_block h =
    feature_lines-AreNames lines _ _ (feature_line-AreNames found in_block (flow_list line) line h)

-- Whatever the text of the settings, the features read are names, of letters, digits, dashes and
-- underscores and not empty, and none is there twice.
pub parse_features-AreNames : (s : Text) → AreNames (parse_features s)
unfolding parse_features
parse_features-AreNames s = feature_lines-AreNames (lines_of s) [] false (tt, tt)
