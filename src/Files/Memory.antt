-- ===== src/Files/Memory.antt =====
-- A file system in memory: the files alone, by their paths; a directory is where files are.
use mathlib.Core.List.{append-nil, append_cancel_left}
use docker_claudebox.Files.{
  FileSystem, IsLawful, Outcome, Done, at_or_below, below, moved, moved_at,
}
use docker_claudebox.Files.Kept.{below_sound, below-append}
use docker_claudebox.Base.{
  Bool, Bool-cases, Dict, List, Option, Option-cases, Result, Text, [], ap, arith, contains, eq_iff,
  eq_refl, err, false, if◌then◌else◌, inl, inr, insert, lookup, lookup-insert, nat_beq, none, not,
  ok, or_false, refl, remove, some, sym, take_run, text, text_eq, true, ◌&&◌, ◌++◌, ◌==◌, ◌||◌, ◌↔◌,
  ◌∙◌, ◌∷◌, ◌≡◌, ◌≢◌, ◌⊎◌,
}

abbrev pub Memory : Type 0
Memory = Dict Text

abbrev is_some : Option Text → Bool
is_some none = false
is_some (some _) = true

abbrev rename_in : Text → Option Text → Text → Text
rename_in dst none path = path
rename_in dst (some rest) path = dst ++ rest

abbrev rename : Text → Text → Text → Text
rename src dst path = rename_in dst (below src path) path

abbrev rename_all : Text → Text → Memory → Memory
rename_all src dst [] = []
rename_all src dst (entry ∷ w) = (rename src dst entry.0, entry.1) ∷ rename_all src dst w

abbrev holds : Text → Memory → Bool
holds p [] = false
holds p (entry ∷ w) = is_some (below p entry.0) || holds p w

-- The path, before the renaming, of what has the path `p` after it.
abbrev origin : Text → Option Text → Option Text → Text → Option Text
origin src (some rest) old p = some (src ++ rest)
origin src none (some rest) p = none
origin src none none p = some p

-- Where nothing is at or below the goal, a file's new path comes from its old one.
rename-origin :
    (src dst k p : Text) (o u v : Option Text)
    → below dst k ≡ none
    → below src k ≡ o
    → below dst p ≡ u
    → below src p ≡ v
    → (rename_in dst o k ≡ p) ↔ (origin src u v p ≡ some k)
rename-origin src dst k p (some t) (some r) v free ko pu pv =
    let (k_place, _) = below_sound src k t ko in
    let (p_place, _) = below_sound dst p r pu in
    (
      λ e.
          let same = append_cancel_left dst t r (e ∙ p_place) in
          cc (ap (λ s. src ++ s) same, k_place),
      λ e.
          let back : src ++ r ≡ src ++ t = cc (e, k_place) in
          ap (λ s. dst ++ s) (sym (append_cancel_left src r t back)) ∙ sym p_place,
    )
rename-origin src dst k p (some t) none (some r) free ko pu pv =
    let (_, shape) = below_sound src k t ko in
    (λ e. cc (below-append dst t shape, e, pu), λ e. cc e)
rename-origin src dst k p (some t) none none free ko pu pv =
    let (_, shape) = below_sound src k t ko in
    (
      λ e. cc (below-append dst t shape, e, pu),
      λ e. let same : p ≡ k = cc e in cc (ap (below src) same, ko, pv),
    )
rename-origin src dst k p none (some r) v free ko pu pv =
    let (_, shape) = below_sound dst p r pu in
    (
      λ e. cc (free, pu, e),
      λ e. let same : src ++ r ≡ k = cc e in cc (ap (below src) same, below-append src r shape, ko),
    )
rename-origin src dst k p none none (some r) free ko pu pv = (λ e. cc (ko, pv, e), λ e. cc e)
rename-origin src dst k p none none none free ko pu pv = (λ e. cc e, λ e. cc e)

abbrev lookup_at : Option Text → Memory → Option Text
lookup_at none w = none
lookup_at (some p) w = lookup p w

moved-origin :
    (src p : Text) (u v : Option Text) (w : Memory)
    → moved_at (λ q. lookup q w) src u v p ≡ lookup_at (origin src u v p) w
moved-origin src p (some r) v w = refl
moved-origin src p none (some r) w = refl
moved-origin src p none none w = refl

lookup_at_nil : (o : Option Text) → lookup_at o [] ≡ none
unfolding lookup
lookup_at_nil none = refl
lookup_at_nil (some q) = refl

lookup_at_step :
    (o : Option Text) (entry : Text × Text) (w : Memory) (b : Bool)
    → (b ≡ true) ↔ (o ≡ some entry.0)
    → lookup_at o (entry ∷ w) ≡ (if b then some entry.1 else lookup_at o w)
unfolding lookup
lookup_at_step none entry w true h = cc (h.0 refl)
lookup_at_step none entry w false h = refl
lookup_at_step (some q) entry w true h =
    let same : q ≡ entry.0 = cc (h.0 refl) in rw same (rw (eq_refl entry.0) refl)
lookup_at_step (some q) entry w false h = elim (Bool-cases (entry.0 == q)) [
  | inl same ↦
      let absurdity : false ≡ true = h.1 (ap some (sym ((eq_iff entry.0 q).0 same))) in cc absurdity
  | inr apart ↦ rw apart refl
]

holds-false :
    (d : Text) (entry : Text × Text) (w : Memory)
    → holds d (entry ∷ w) ≡ false
    → (below d entry.0 ≡ none) × (holds d w ≡ false)
holds-false d entry w h = elim (Option-cases (below d entry.0)) [
  | inl free ↦ (free, sym (rw free refl) ∙ h)
  | inr (r, under) ↦ cc (h, under)
]

lookup-rename_all :
    (src dst p : Text) (w : Memory)
    → holds dst w ≡ false
    → lookup p (rename_all src dst w) ≡ moved src dst (λ q. lookup q w) p
unfolding lookup moved
lookup-rename_all src dst p [] free =
    sym (moved-origin src p (below dst p) (below src p) [] ∙ lookup_at_nil _)
lookup-rename_all src dst p (entry ∷ w) free =
    let (clear, rest) = holds-false dst entry w free in
    let u = below dst p in
    let v = below src p in
    let moves = rename-origin src dst entry.0 p (below src entry.0) u v clear refl refl refl in
    let test = eq_iff (rename src dst entry.0) p in
    let later : lookup p (rename_all src dst w) ≡ lookup_at (origin src u v p) w =
      lookup-rename_all src dst p w rest ∙ moved-origin src p u v w in
    rw later (
      sym (
        moved-origin src p u v (entry ∷ w)
        ∙ lookup_at_step (origin src u v p) entry w (rename src dst entry.0 == p)
            (λ b. moves.0 (test.0 b), λ e. test.1 (moves.1 e))))

-- The laws of `holds`, which the existence of a path is.
lookup-holds : (p c : Text) (w : Memory) → lookup p w ≡ some c → holds p w ≡ true
unfolding lookup
lookup-holds p c [] h = cc h
lookup-holds p c (entry ∷ w) h = elim (Bool-cases (entry.0 == p)) [
  | inl same ↦
      let place : p ++ [] ≡ entry.0 = append-nil p ∙ sym ((eq_iff entry.0 p).0 same) in
      rw (sym place) (rw (below-append p [] refl) refl)
  | inr apart ↦
      let later : lookup p w ≡ some c = sym (rw apart refl) ∙ h in
      rw (lookup-holds p c w later) (ground arith)
]

holds-false-lookup :
    (d r : Text) (w : Memory)
    → holds d w ≡ false
    → at_or_below r ≡ some r
    → lookup (d ++ r) w ≡ none
unfolding lookup
holds-false-lookup d r [] h shape = refl
holds-false-lookup d r (entry ∷ w) h shape =
    let (clear, rest) = holds-false d entry w h in
    elim (Bool-cases (entry.0 == d ++ r)) [
      | inl same ↦ cc (below-append d r shape, (eq_iff entry.0 (d ++ r)).0 same, clear)
      | inr apart ↦ rw apart (holds-false-lookup d r w rest shape)
    ]

-- A move is refused whose goal is there already, whose source is not, or that goes below itself.
abbrev refused : Text → Text → Memory → Bool
refused src dst w =
    holds dst w || (holds src (rename_all src dst w) || not (holds dst (rename_all src dst w)))

abbrev move_in : Text → Text → Memory → Outcome Done Memory
move_in src dst w =
    if refused src dst w
    then (err (text "cannot move"), w)
    else (ok Done.done, rename_all src dst w)

abbrev first_segment : Text → Option Text → List Text → List Text
first_segment p none names = names
first_segment p (some []) names = names
first_segment p (some (_ ∷ rest)) names =
    let name = take_run (λ c. not (nat_beq c b'/')) rest in
    if contains names name then names else name ∷ names

abbrev segments : Text → Memory → List Text
segments p [] = []
segments p (entry ∷ w) = first_segment p (below p entry.0) (segments p w)

abbrev text_or_empty : Option Text → Text
text_or_empty none = []
text_or_empty (some c) = c

abbrev found : Option Text → Result Text Text
found none = err (text "no such file")
found (some c) = ok c

abbrev outside : Text → Memory → Memory
outside p [] = []
outside p (entry ∷ w) =
    let rest = outside p w in if is_some (below p entry.0) then rest else entry ∷ rest

abbrev is_dir : Text → Memory → Bool
is_dir p w = holds p w && not (is_some (lookup p w))

abbrev pub memory : FileSystem Memory
memory = record {
  exists = holds;
  is_directory = is_dir;
  read_text_or_undefined = lookup;
  list_dir = λ p w. ok (segments p w);
  mkdir_recursive = λ p w. (ok Done.done, w);
  move = move_in;
  rm_dir_if_empty = λ p w. (ok Done.done, w);
  chmod = λ p mode w. (ok Done.done, w);
  write_text_atomic = λ p c w. (ok Done.done, insert p c w);
  write_text = λ p c w. (ok Done.done, insert p c w);
  remove_file = λ p w. (ok Done.done, remove p w);
  append_text = λ p c w. (ok Done.done, insert p (text_or_empty (lookup p w) ++ c) w);
  read_text = λ p w. found (lookup p w);
  mtime_ms = λ p w. none;
  stat_mode = λ p w. none;
  remove_dir_recursive = λ p w. (ok Done.done, outside p w);
}

move_in_cases :
    (src dst : Text) (w : Memory)
    → (move_in src dst w ≡ (err (text "cannot move"), w))
      ⊎ ((move_in src dst w ≡ (ok Done.done, rename_all src dst w)) × (refused src dst w ≡ false))
move_in_cases src dst w = elim (Bool-cases (refused src dst w)) [
  | inl no_move ↦ inl (rw no_move refl)
  | inr moves ↦ inr (rw moves refl, moves)
]

other_insert : (q c p : Text) (w : Memory) → p ≢ q → lookup p (insert q c w) ≡ lookup p w
other_insert q c p w apart = elim (Bool-cases (q == p)) [
  | inl same ↦ absurd (apart (sym ((eq_iff q p).0 same)))
  | inr other ↦ lookup-insert q p c w ∙ rw other refl
]

move_in-throws :
    (src dst thrown : Text) (w w₁ : Memory) → move_in src dst w ≡ (err thrown, w₁) → w₁ ≡ w
move_in-throws src dst thrown w w₁ h = elim (move_in_cases src dst w) [
  | inl stays ↦ cc (h, stays)
  | inr (moves, _) ↦ cc (h, moves)
]

move_in-returns :
    (src dst : Text) (u : Done) (w w₁ : Memory)
    → move_in src dst w ≡ (ok u, w₁)
    → (w₁ ≡ rename_all src dst w) × (refused src dst w ≡ false)
move_in-returns src dst u w w₁ h = elim (move_in_cases src dst w) [
  | inl stays ↦ cc (h, stays)
  | inr (moves, clear) ↦ (cc (h, moves), clear)
]

move_in-refuses :
    (src dst : Text) (w w₁ : Memory)
    → w₁ ≡ rename_all src dst w
    → refused src dst w ≡ false
    → (holds dst w ≡ false) × (holds src w₁ ≡ false) × (holds dst w₁ ≡ true)
move_in-refuses src dst w w₁ e h = rw e (ground (arith, h))

pub memory-IsLawful : IsLawful memory
unfolding insert
memory-IsLawful = record {
  file-exists = lookup-holds;
  directory-exists = λ p w h. ground (arith, h);
  nothing_below = λ d r w h shape. holds-false-lookup d r w h shape;
  mkdir_recursive_keeps = λ d p w. refl;
  rm_dir_if_empty_keeps = λ d p w. refl;
  chmod_keeps = λ d mode p w. refl;
  write_text_atomic_keeps = λ q c p w apart. other_insert q c p w apart;
  write_text_atomic_stores = λ p c u w w₁ h.
      let same : insert p c w ≡ w₁ = ap (λ r. r.1) h in
      rw (sym same) (lookup-insert p p c w ∙ rw (eq_refl p) refl);
  move_throws =
      λ src dst thrown w w₁ h p. ap (λ s. lookup p s) (move_in-throws src dst thrown w w₁ h);
  move_renames = λ src dst u w w₁ h p.
      let (same, clear) = move_in-returns src dst u w w₁ h in
      rw same (lookup-rename_all src dst p w (or_false _ _ clear).0);
  move_refuses = λ src dst u w w₁ h.
      let (same, clear) = move_in-returns src dst u w w₁ h in
      let (free, gone, _) = move_in-refuses src dst w w₁ same clear in (free, gone);
}
