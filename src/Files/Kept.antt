-- ===== src/Files/Kept.antt =====
-- What a file holds, after chains of calls of the file system.
use docker_claudebox.Files.{
  FileSystem, IsLawful, Outcome, ◌>>->◌, Done, at_or_below, below, below_in, moved,
}
use docker_claudebox.Base.{
  Bool, Option, Option-cases, Text, [], after_prefix, ap, arith, err, false, if◌then◌else◌, inl,
  inr, none, ok, refl, some, true, ℕ, ◌++◌, ◌∙◌, ◌∷◌, ◌≡◌, ◌≢◌, ◌⊎◌,
}

pub after_prefix-append : (p s : Text) → after_prefix p (p ++ s) ≡ some s
unfolding after_prefix
after_prefix-append [] s = refl
after_prefix-append (c ∷ p) s = ground (arith, after_prefix-append p s)

pub after_prefix_sound : (p s r : Text) → after_prefix p s ≡ some r → s ≡ p ++ r
unfolding after_prefix
after_prefix_sound [] s r h = cc h
after_prefix_sound (c ∷ p) [] r h = cc h
after_prefix_sound (c ∷ p) (d ∷ s) r h = ground (arith, after_prefix_sound p s r, h)

at_or_below_id : (s r : Text) → at_or_below s ≡ some r → s ≡ r
at_or_below_id [] r h = cc h
at_or_below_id (c ∷ s) r h = ground (arith, h)

pub below-append : (d r : Text) → at_or_below r ≡ some r → below d (d ++ r) ≡ some r
unfolding below
below-append d r h = rw (after_prefix-append d r) h

below_in_sound :
    (d p r : Text) (o : Option Text)
    → after_prefix d p ≡ o
    → below_in o ≡ some r
    → (p ≡ d ++ r) × (at_or_below r ≡ some r)
below_in_sound d p r none e h = cc h
below_in_sound d p r (some s) e h =
    let same = at_or_below_id s r h in (after_prefix_sound d p r (e ∙ ap some same), cc (h, same))

pub below_sound : (d p r : Text) → below d p ≡ some r → (p ≡ d ++ r) × (at_or_below r ≡ some r)
unfolding below
below_sound d p r h = below_in_sound d p r (after_prefix d p) refl h

-- Where `move` puts a file: nothing stands at or below its goal before.
moved_target :
    (files : Text → Option Text) (src dst p c : Text)
    → ((r : Text) → at_or_below r ≡ some r → files (dst ++ r) ≡ none)
    → files p ≡ some c
    → (o : Option Text) → below src p ≡ o
    → (q : Text) × (moved src dst files q ≡ some c)
      × ((q ≡ p) ⊎ ((r : Text) × (q ≡ dst ++ r) × (at_or_below r ≡ some r)))
unfolding moved
moved_target files src dst p c free h (some r) e =
    let (place, shape) = below_sound src p r e in
    (dst ++ r, rw (below-append dst r shape) (cc (ap files place, h)), inr (r, refl, shape))
moved_target files src dst p c free h none e = elim (Option-cases (below dst p)) [
  | inl clear ↦ (p, rw clear (rw e h), inl refl)
  | inr (r, under) ↦
      let (place, shape) = below_sound dst p r under in
      let place_free : files p ≡ none = ap files place ∙ free r shape in cc (place_free, h)
]

module _ {W : Type 0} (fs : FileSystem W) (law : IsLawful fs) (Allowed : Text → Type 0) where
  -- A file with the content `c` stands at an allowed path.
  abbrev pub Held : Text → W → Type 0
  Held c w = (q : Text) × (Allowed q) × (fs.read_text_or_undefined q w ≡ some c)

  -- The calls so far have kept every content, whether they returned or threw.
  pub record Keeps {A : Type 0} (w : W) (r : Outcome A W) : Type 0 where
    pub keeps : (c : Text) → Held c w → Held c r.1

  pub returned-Keeps : {A : Type 0} (a : A) (w : W) → Keeps w (ok a, w)
  returned-Keeps a w = record { keeps = λ c h. h }

  pub threw-Keeps : {A : Type 0} (thrown : Text) (w : W) → Keeps {A = A} w (err thrown, w)
  threw-Keeps thrown w = record { keeps = λ c h. h }

  pub if-Keeps :
      {A : Type 0} (w : W) (b : Bool) (x y : Outcome A W)
      → Keeps w x
      → Keeps w y
      → Keeps w (if b then x else y)
  if-Keeps w true x y hx hy = hx
  if-Keeps w false x y hx hy = hy

  same_files-Keeps :
      {A : Type 0} (w : W) (r : Outcome A W)
      → ((p : Text) → fs.read_text_or_undefined p r.1 ≡ fs.read_text_or_undefined p w)
      → Keeps w r
  same_files-Keeps w r same = record { keeps = λ c h. (h.0, h.1, same h.0 ∙ h.2) }

  pub >>->-Keeps :
      {A B : Type 0} (w : W) (r : Outcome A W) (next : A → W → Outcome B W)
      → Keeps w r
      → ((a : A) (w₁ : W) → Keeps w₁ (next a w₁))
      → Keeps w (r >>-> next)
  unfolding ◌>>->◌
  >>->-Keeps w (err thrown, w₁) next first later = record { keeps = first.keeps }
  >>->-Keeps w (ok a, w₁) next first later = record {
    keeps = λ c h. (later a w₁).keeps c (first.keeps c h);
  }

  pub mkdir_recursive-Keeps : (d : Text) (w : W) → Keeps w (fs.mkdir_recursive d w)
  mkdir_recursive-Keeps d w =
      same_files-Keeps w (fs.mkdir_recursive d w) (λ p. law.mkdir_recursive_keeps d p w)

  pub rm_dir_if_empty-Keeps : (d : Text) (w : W) → Keeps w (fs.rm_dir_if_empty d w)
  rm_dir_if_empty-Keeps d w =
      same_files-Keeps w (fs.rm_dir_if_empty d w) (λ p. law.rm_dir_if_empty_keeps d p w)

  pub chmod-Keeps : (d : Text) (mode : ℕ) (w : W) → Keeps w (fs.chmod d mode w)
  chmod-Keeps d mode w = same_files-Keeps w (fs.chmod d mode w) (λ p. law.chmod_keeps d mode p w)

  target_allowed :
      (dst p q : Text)
      → ((r : Text) → at_or_below r ≡ some r → Allowed (dst ++ r))
      → Allowed p
      → ((q ≡ p) ⊎ ((r : Text) × (q ≡ dst ++ r) × (at_or_below r ≡ some r)))
      → Allowed q
  target_allowed dst p q allowed here (inl same) = rw same here
  target_allowed dst p q allowed here (inr (r, place, shape)) = rw place (allowed r shape)

  move_returns :
      (src dst : Text) (w : W) (u : Done) (w₁ : W)
      → ((s : Text) → at_or_below s ≡ some s → Allowed (dst ++ s))
      → fs.move src dst w ≡ (ok u, w₁)
      → (c : Text) → Held c w
      → Held c w₁
  move_returns src dst w u w₁ allowed e c (p, here, content) =
      let refused = law.move_refuses src dst u w w₁ e in
      let (q, content₁, place) =
        moved_target (λ q. fs.read_text_or_undefined q w) src dst p c
          (λ s shape. law.nothing_below dst s w refused.0 shape) content (below src p) refl in
      (q, target_allowed dst p q allowed here place, law.move_renames src dst u w w₁ e q ∙ content₁)

  move_result-Keeps :
      (src dst : Text) (w : W) (r : Outcome Done W)
      → ((s : Text) → at_or_below s ≡ some s → Allowed (dst ++ s))
      → fs.move src dst w ≡ r
      → Keeps w r
  move_result-Keeps src dst w (err thrown, w₁) allowed e =
      same_files-Keeps w (err thrown, w₁) (law.move_throws src dst thrown w w₁ e)
  move_result-Keeps src dst w (ok u, w₁) allowed e = record {
    keeps = λ c h. move_returns src dst w u w₁ allowed e c h;
  }

  pub move-Keeps :
      (src dst : Text) (w : W)
      → ((s : Text) → at_or_below s ≡ some s → Allowed (dst ++ s))
      → Keeps w (fs.move src dst w)
  move-Keeps src dst w allowed = move_result-Keeps src dst w (fs.move src dst w) allowed refl

  pub write_text_atomic-Keeps :
      (d content : Text) (w : W)
      → ((p : Text) → Allowed p → p ≢ d)
      → Keeps w (fs.write_text_atomic d content w)
  write_text_atomic-Keeps d content w away = record {
    keeps = λ c h. (h.0, h.1, law.write_text_atomic_keeps d content h.0 w (away h.0 h.1) ∙ h.2);
  }

-- The rules for a call that is followed by others, for a conditional and for the calls.
pub ruleset keeping = (
  if-Keeps, >>->-Keeps, returned-Keeps, threw-Keeps, mkdir_recursive-Keeps, rm_dir_if_empty-Keeps,
  chmod-Keeps,
)
