-- ===== src/Cli/Guard/Parents.antt =====
-- The parent of a directory's path, which the search for the marker goes up to.
use mathlib.Core.List.{append_assoc, reverse, reverse-append, reverse-cons, reverse-reverse}
use docker_claudebox.Cli.Guard.{slash, parent_of, next_up}
use docker_claudebox.Base.{
  Bool, Bool-cases, Text, [], all, all-append, ap, arith, drop_run, drop_run-append, inl, inr,
  nat_beq, nat_beq_iff, not, refl, sym, true, ℕ, ◌++◌, ◌∙◌, ◌∷◌, ◌≡◌, ◌≢◌, ◌⊎◌,
}

abbrev not_slash : ℕ → Bool
not_slash c = not (nat_beq c b'/')

abbrev pub NoSlash : Text → Type 0
NoSlash s = all not_slash s ≡ true

-- `IsParent dir up`: `up` is what stands before the last slash of `dir`, or the root when nothing
-- does.
abbrev pub IsParent : Text → Text → Type 0
IsParent dir up =
    (p : Text) × (name : Text) × NoSlash name
    × (((p ≢ []) × (dir ≡ p ++ (slash ++ name)) × (up ≡ p))
        ⊎ (((dir ≡ slash ++ name) ⊎ (dir ≡ name)) × (up ≡ slash)))

NoSlash-reverse : (s : Text) → NoSlash s → NoSlash (reverse s)
NoSlash-reverse [] h = refl
NoSlash-reverse (c ∷ s) h = rw (reverse-cons c s) (
    all-append not_slash (reverse s) (c ∷ []) (NoSlash-reverse s (ground (arith, h)))
      (ground (arith, h)))

drop_run_all : (s : Text) → NoSlash s → drop_run not_slash s ≡ []
unfolding drop_run
drop_run_all [] h = refl
drop_run_all (c ∷ s) h = ground (arith, drop_run_all s)

parent_of_bare : (name : Text) → NoSlash name → parent_of name ≡ []
unfolding parent_of
parent_of_bare name h = rw (drop_run_all (reverse name) (NoSlash-reverse name h)) refl

reverse-folder :
    (p name : Text) → reverse (p ++ (slash ++ name)) ≡ reverse name ++ (b'/' ∷ reverse p)
reverse-folder p name =
    rw (reverse-append p (slash ++ name), reverse-cons b'/' name)
      (append_assoc (reverse name) (b'/' ∷ []) (reverse p))

parent_of-folder : (p name : Text) → NoSlash name → parent_of (p ++ (slash ++ name)) ≡ p
unfolding parent_of
parent_of-folder p name h =
    rw
      (
        reverse-folder p name,
        drop_run-append not_slash (reverse name) b'/' (reverse p) (NoSlash-reverse name h) refl,
      )
      (reverse-reverse p)

-- A path has no slash, or a last one.
last_slash :
    (dir : Text)
    → NoSlash dir ⊎ ((p : Text) × (name : Text) × NoSlash name × (dir ≡ p ++ (slash ++ name)))
last_slash [] = inl refl
last_slash (c ∷ s) = elim (last_slash s) [
  | inr (p, name, h, e) ↦ inr (c ∷ p, name, h, ap (λ t. c ∷ t) e)
  | inl h ↦ elim (Bool-cases (nat_beq c b'/')) [
    | inl here ↦ inr ([], s, h, ap (λ k. k ∷ s) ((nat_beq_iff c b'/').0 here))
    | inr other ↦ inl (rw (other, h) refl)
  ]
]

next_up_root : (dir : Text) → parent_of dir ≡ [] → next_up dir ≡ slash
unfolding next_up
next_up_root dir e = rw e refl

next_up_folder : (dir p : Text) → p ≢ [] → parent_of dir ≡ p → next_up dir ≡ p
unfolding next_up
next_up_folder dir [] h e = absurd (h refl)
next_up_folder dir (c ∷ p) h e = rw e refl

-- The search goes up to the parent.
pub next_up-IsParent : (dir : Text) → IsParent dir (next_up dir)
next_up-IsParent dir = elim (last_slash dir) [
  | inl bare ↦ ([], dir, bare, inr (inr refl, next_up_root dir (parent_of_bare dir bare)))
  | inr ([], name, h, e) ↦
      ([], name, h, inr (inl e, next_up_root dir (rw e (parent_of-folder [] name h))))
  | inr (c ∷ p, name, h, e) ↦ (
    c ∷ p,
    name,
    h,
    inl (
      λ q. cc q,
      e,
      next_up_folder dir (c ∷ p) (λ q. cc q) (rw e (parent_of-folder (c ∷ p) name h)),
    ),
  )
]

-- A directory has one parent.
pub IsParent-next_up : (dir up : Text) → IsParent dir up → up ≡ next_up dir
IsParent-next_up dir up (p, name, h, inl (some_parent, e, at)) =
    at ∙ sym (next_up_folder dir p some_parent (rw e (parent_of-folder p name h)))
IsParent-next_up dir up (p, name, h, inr (inl e, at)) =
    at ∙ sym (next_up_root dir (rw e (parent_of-folder [] name h)))
IsParent-next_up dir up (p, name, h, inr (inr e, at)) =
    at ∙ sym (next_up_root dir (rw e (parent_of_bare name h)))
