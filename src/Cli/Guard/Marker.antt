-- ===== src/Cli/Guard/Marker.antt =====
-- The search for the opt-out marker, and the directories on the way up.
use mathlib.Core.List.{reverse, reverse-cons}
use docker_claudebox.Cli.Guard.{
  slash, tail_of, parent_of, next_up, candidate_in, normalized, walk_up, max_rounds,
  find_no_dridock_marker,
}
use docker_claudebox.Cli.Guard.Parents.{IsParent, next_up-IsParent, IsParent-next_up}
use docker_claudebox.Base.{
  Bool, Bool-cases, Option-cases, Text, [], ap, arith, drop_run, eq_iff, false, if◌then◌else◌, inl,
  inr, nat_beq, none, not, or_false, refl, some, suc, text_eq, true, zero, ℕ, ◌++◌, ◌+◌, ◌<◌, ◌==◌,
  ◌||◌, ◌↔◌, ◌∷◌, ◌≡◌, ◌≢◌, ◌≤◌, ◌⊎◌,
}

-- `Above home n d a`: from `d`, `a` is reached in `n` steps to a parent, none of them from the root or from
-- the home directory.
pub data Above (home : Text) : ℕ → Text → Text → Type 0 where
  here : {d : Text} → Above home zero d d
  up :
      {n : ℕ} {d b a : Text}
      → d ≢ slash
      → d ≢ home
      → IsParent d b
      → Above home n b a
      → Above home (suc n) d a

module _ (exists : Text → Bool) (home : Text) where
  -- No directory fewer than `n` steps up from `d` has a marker.
  abbrev pub NoneBelow : ℕ → Text → Type 0
  NoneBelow n d = (k : ℕ) (b : Text) → k < n → Above home k d b → exists (candidate_in b) ≡ false

  NoneBelow-up :
      (n : ℕ) (d : Text)
      → exists (candidate_in d) ≡ false
      → NoneBelow n (next_up d)
      → NoneBelow (suc n) d
  NoneBelow-up n d missing rest zero b less here = missing
  NoneBelow-up n d missing rest (suc k) b less (up {b = c} not_root not_home parent chain) =
      rest k b (omega arith) (rw (IsParent-next_up d c parent) at chain)

  -- The marker found stands in a directory on the way up, and none nearer has one.
  walk_up_sound :
      (f : ℕ) (dir m : Text)
      → walk_up exists home f dir ≡ some m
      → (n : ℕ) × (a : Text) × Above home n dir a
        × (m ≡ candidate_in a)
        × (exists m ≡ true)
        × NoneBelow n dir
  unfolding walk_up
  walk_up_sound zero dir m h = cc
  walk_up_sound (suc f) dir m h = elim (Bool-cases (exists (candidate_in dir))) [
    | inl found ↦
        let e : m ≡ candidate_in dir = ground arith in
        (0, dir, here, e, rw e found, λ k b less. absurd (omega arith))
    | inr missing ↦ elim (Bool-cases (dir == slash || dir == home)) [
      | inl top ↦ cc (rw (missing, top) at h)
      | inr below ↦
          let (not_root, not_home) = or_false (dir == slash) (dir == home) below in
          let (n, a, chain, e, found, nearest) =
            walk_up_sound f (next_up dir) m (rw (missing, below) at h) in
          (
            suc n,
            a,
            up (λ p. cc ((eq_iff dir slash).1 p, not_root))
                (λ p. cc ((eq_iff dir home).1 p, not_home)) (next_up-IsParent dir) chain,
            e,
            found,
            NoneBelow-up n dir missing nearest,
          )
    ]
  ]

  walk_up_complete :
      (f n : ℕ) (dir a : Text)
      → n < f
      → Above home n dir a
      → walk_up exists home f dir ≡ none
      → exists (candidate_in a) ≡ false
  unfolding walk_up
  walk_up_complete zero n dir a few chain h = absurd (omega arith)
  walk_up_complete (suc f) n dir a few here h = ground arith
  walk_up_complete (suc f) (suc n) dir a few (up {b = b} not_root not_home parent chain) h =
      ground (
        arith,
        walk_up_complete f n (next_up dir) a (omega arith)
            (rw (IsParent-next_up dir b parent) at chain),
        eq_iff dir slash,
        eq_iff dir home,
      )

-- The number of slashes bounds the way up.
unfoldable pub slashes : Text → ℕ
slashes [] = 0
slashes (c ∷ s) = if nat_beq c b'/' then suc (slashes s) else slashes s

-- Rounds left from a directory: none at the root.
abbrev rounds : Text → ℕ
rounds dir = if dir == slash then 0 else suc (slashes dir)

slashes-append : (s t : Text) → slashes (s ++ t) ≡ slashes s + slashes t
unfolding slashes
slashes-append [] t = omega arith
slashes-append (c ∷ s) t = ground (arith, slashes-append s t)

slashes-reverse : (s : Text) → slashes (reverse s) ≡ slashes s
unfolding slashes
slashes-reverse [] = refl
slashes-reverse (c ∷ s) =
    rw (reverse-cons c s) (ground (arith, slashes-append (reverse s) (c ∷ []), slashes-reverse s))

-- What stands before the last slash has one slash fewer.
slashes-tail_run :
    (s : Text)
    → (tail_of (drop_run (λ c. not (nat_beq c b'/')) s) ≡ [])
      ⊎ (slashes (tail_of (drop_run (λ c. not (nat_beq c b'/')) s)) < slashes s)
unfolding slashes drop_run
slashes-tail_run [] = inl refl
slashes-tail_run (c ∷ s) = elim (Bool-cases (nat_beq c b'/')) [
  | inl e ↦ rw e (inr (omega arith))
  | inr n ↦ rw n (slashes-tail_run s)
]

slashes-parent_of : (dir : Text) → (parent_of dir ≡ []) ⊎ (slashes (parent_of dir) < slashes dir)
unfolding parent_of
slashes-parent_of dir = elim (slashes-tail_run (reverse dir)) [
  | inl none_left ↦ inl (rw none_left)
  | inr fewer ↦ inr (
      omega (
        arith,
        fewer,
        slashes-reverse dir,
        slashes-reverse (tail_of (drop_run (λ c. not (nat_beq c b'/')) (reverse dir))),
      ))
]

rounds-next_up : (dir : Text) → dir ≢ slash → rounds (next_up dir) < rounds dir
unfolding next_up
rounds-next_up dir h = elim (slashes-parent_of dir) [
  | inl top ↦ rw top (ground (arith, eq_iff dir slash))
  | inr fewer ↦
      ground (arith, eq_iff dir slash, eq_iff (parent_of dir) [], eq_iff (parent_of dir) slash)
]

Above-rounds : {home : Text} {n : ℕ} {dir a : Text} → Above home n dir a → n ≤ rounds dir
Above-rounds here = omega arith
Above-rounds (up {d = d} {b = b} not_root not_home parent chain) =
    omega (
      arith,
      rounds-next_up d not_root,
      ap rounds (IsParent-next_up d b parent),
      Above-rounds chain,
    )

-- The marker that is found is there, in a directory on the way from the working directory up to the
-- home directory or the root, parent by parent, and no directory nearer on the way has one.
pub find_no_dridock_marker_sound :
    (exists : Text → Bool) (cwd home m : Text)
    → find_no_dridock_marker exists cwd home ≡ some m
    → (n : ℕ) × (a : Text) × Above (normalized home) n (normalized cwd) a
      × (m ≡ candidate_in a)
      × (exists m ≡ true)
      × ((k : ℕ) (b : Text)
          → k < n
          → Above (normalized home) k (normalized cwd) b
          → exists (candidate_in b) ≡ false)
unfolding find_no_dridock_marker
find_no_dridock_marker_sound exists cwd home m h =
    walk_up_sound exists (normalized home) max_rounds (normalized cwd) m h

-- For a path of fewer than 1023 slashes the 1024 rounds are enough: nothing is found exactly when no
-- directory on the way up, the working directory, the home directory and the root included, holds a
-- marker.
pub find_no_dridock_marker-none_iff :
    (exists : Text → Bool) (cwd home : Text)
    → slashes (normalized cwd) < 1023
    → (find_no_dridock_marker exists cwd home ≡ none) ↔ (
        (n : ℕ) (a : Text)
        → Above (normalized home) n (normalized cwd) a
        → exists (candidate_in a) ≡ false)
unfolding find_no_dridock_marker
find_no_dridock_marker-none_iff exists cwd home few = (
  λ e n a chain.
      walk_up_complete exists (normalized home) max_rounds n (normalized cwd) a
        (ground (arith, Above-rounds chain)) chain e,
  λ none_there. elim (Option-cases (walk_up exists (normalized home) max_rounds (normalized cwd))) [
    | inl e ↦ e
    | inr (m, e) ↦
        let (n, a, chain, at, found, _) =
          walk_up_sound exists (normalized home) max_rounds (normalized cwd) m e in
        cc (none_there n a chain, at, found)
  ],
)
