-- ===== src/Team/Dir/Given.antt =====
-- The options of `team dir`: where they are taken from.
use docker_claudebox.Files.{FileSystem}
use docker_claudebox.Team.Dir.{DirOptions, ms_per_day, parse_dir_args}
use docker_claudebox.Team.Send.{Shell}
use docker_claudebox.Base.{
  Bool-cases, Dict, List, Option, Option-cases, Text, [], after_prefix, arith, contains, eq_iff,
  eq_refl, false, inl, inr, nat_beq, nat_beq_iff, none, ok, ok_injective, refl, some, text, text_eq,
  true, ℕ, ◌*◌, ◌++◌, ◌==◌, ◌∷◌, ◌≡◌, ◌⊎◌,
}

-- The age that an argument gives, which is none where it does not read as one.
abbrev pub IsAge : (Text → Option ℕ) → List Text → Option ℕ → Type 0
IsAge read_days args limit =
    (limit ≡ none)
    ⊎ ((v : Text) × (limit ≡ read_days v)
        × ((contains args v ≡ true) ⊎ (contains args (text "--older-than=" ++ v) ≡ true)))

-- The options `o'` are those of `o`, or are given by the arguments.
record AreFrom (read_days : Text → Option ℕ) (args : List Text) (o o' : DirOptions) : Type 0 where
  pub reap : o'.reap ≡ true → (o.reap ≡ true) ⊎ (contains args (text "--reap") ≡ true)
  pub limit : (o'.older_than ≡ o.older_than) ⊎ IsAge read_days args o'.older_than

-- The options are those of the arguments: a reap was asked for, and the limit is seven days or that
-- of an argument.
pub record AreGiven (read_days : Text → Option ℕ) (args : List Text) (o : DirOptions) : Type 0 where
  pub reap : o.reap ≡ true → contains args (text "--reap") ≡ true
  pub limit : (o.older_than ≡ some (7 * ms_per_day)) ⊎ IsAge read_days args o.older_than

contains-behind :
    (a x : Text) (args : List Text) → contains args x ≡ true → contains (a ∷ args) x ≡ true
contains-behind a x args h = ground (arith, h)

contains-here : (a x : Text) (args : List Text) → a ≡ x → contains (a ∷ args) x ≡ true
contains-here a x args h = rw (h, eq_refl x) refl

after_prefix-append : (p s rest : Text) → after_prefix p s ≡ some rest → s ≡ p ++ rest
unfolding after_prefix
after_prefix-append [] s rest h = cc h
after_prefix-append (c ∷ p) [] rest h = cc h
after_prefix-append (c ∷ p) (d ∷ s) rest h = elim (Bool-cases (nat_beq c d)) [
  | inl e ↦
      let later = after_prefix-append p s rest (rw e at h) in cc (later, (nat_beq_iff c d).0 e)
  | inr n ↦ cc (rw n at h)
]

IsAge-behind :
    (read_days : Text → Option ℕ) (a : Text) (args : List Text) (limit : Option ℕ)
    → IsAge read_days args limit
    → IsAge read_days (a ∷ args) limit
IsAge-behind read_days a args limit (inl h) = inl h
IsAge-behind read_days a args limit (inr (v, e, inl h)) =
    inr (v, e, inl (contains-behind a v args h))
IsAge-behind read_days a args limit (inr (v, e, inr h)) =
    inr (v, e, inr (contains-behind a (text "--older-than=" ++ v) args h))

AreFrom-behind :
    (read_days : Text → Option ℕ) (a : Text) (args : List Text) (o o' : DirOptions)
    → AreFrom read_days args o o'
    → AreFrom read_days (a ∷ args) o o'
AreFrom-behind read_days a args o o' f = record {
  reap = λ h. elim (f.reap h) [
    | inl old ↦ inl old
    | inr given ↦ inr (contains-behind a (text "--reap") args given)
  ];
  limit = elim f.limit [
    | inl old ↦ inl old
    | inr age ↦ inr (IsAge-behind read_days a args o'.older_than age)
  ];
}

-- After `--reap`.
reap-AreFrom :
    (read_days : Text → Option ℕ) (a : Text) (args : List Text) (o o' : DirOptions)
    → a ≡ text "--reap"
    → AreFrom read_days args (record o { reap = true }) o'
    → AreFrom read_days (a ∷ args) o o'
reap-AreFrom read_days a args o o' e f = record {
  reap = λ h. inr (contains-here a (text "--reap") args e);
  limit = (AreFrom-behind read_days a args (record o { reap = true }) o' f).limit;
}

-- After an age that the arguments give.
age-AreFrom :
    (read_days : Text → Option ℕ) (args : List Text) (limit : Option ℕ) (o o' : DirOptions)
    → IsAge read_days args limit
    → AreFrom read_days args (record o { older_than = limit }) o'
    → AreFrom read_days args o o'
age-AreFrom read_days args limit o o' age f = record {
  reap = f.reap;
  limit = elim f.limit [ inl kept ↦ inr (rw kept age) | inr later ↦ inr later ];
}

same-AreFrom :
    (read_days : Text → Option ℕ) (args : List Text) (o : DirOptions) → AreFrom read_days args o o
same-AreFrom read_days args o = record { reap = λ h. inl h; limit = inl refl }

joined-IsAge :
    (read_days : Text → Option ℕ) (a v : Text) (args : List Text)
    → after_prefix (text "--older-than=") a ≡ some v
    → IsAge read_days (a ∷ args) (read_days v)
joined-IsAge read_days a v args e = inr (
  v,
  refl,
  inr (
      contains-here a (text "--older-than=" ++ v) args
        (after_prefix-append (text "--older-than=") a v e)),
)

module _ {W : Type 0} (fs : FileSystem W) (sh : Shell W) (env : Dict Text)
    (read_days : Text → Option ℕ) where
  parse_dir_args-AreFrom :
      (args : List Text) (o o' : DirOptions)
      → parse_dir_args fs sh env read_days args o ≡ ok o'
      → AreFrom read_days args o o'
  unfolding parse_dir_args
  parse_dir_args-AreFrom [] o o' h = rw (ok_injective h) (same-AreFrom read_days [] o')
  parse_dir_args-AreFrom (a ∷ []) o o' h = elim (Bool-cases (a == text "--reap")) [
    | inl r ↦
        reap-AreFrom read_days a [] o o' ((eq_iff a (text "--reap")).0 r)
          (rw (ok_injective (rw r at h)) (same-AreFrom read_days [] o'))
    | inr nr ↦ elim (Bool-cases (a == text "--older-than")) [
      | inl s ↦
          age-AreFrom read_days (a ∷ []) none o o' (inl refl)
            (rw (ok_injective (rw (nr, s) at h)) (same-AreFrom read_days (a ∷ []) o'))
      | inr ns ↦ elim (Option-cases (after_prefix (text "--older-than=") a)) [
        | inl bad ↦ cc (rw (nr, ns, bad) at h)
        | inr (v, e) ↦
            age-AreFrom read_days (a ∷ []) (read_days v) o o' (joined-IsAge read_days a v [] e)
              (rw (ok_injective (rw (nr, ns, e) at h)) (same-AreFrom read_days (a ∷ []) o'))
      ]
    ]
  ]
  parse_dir_args-AreFrom (a ∷ (v ∷ rest)) o o' h = elim (Bool-cases (a == text "--reap")) [
    | inl r ↦ reap-AreFrom read_days a (v ∷ rest) o o' ((eq_iff a (text "--reap")).0 r) (
        parse_dir_args-AreFrom (v ∷ rest) (record o { reap = true }) o'
          (rw (parse_dir_args, r) at h))
    | inr nr ↦ elim (Bool-cases (a == text "--older-than")) [
      | inl s ↦
          let o₁ : DirOptions = record o { older_than = read_days v } in
          age-AreFrom read_days (a ∷ (v ∷ rest)) (read_days v) o o'
            (inr (v, refl, inl (contains-behind a v (v ∷ rest) (contains-here v v rest refl))))
            (AreFrom-behind read_days a (v ∷ rest) o₁ o' (
              AreFrom-behind read_days v rest o₁ o'
                (parse_dir_args-AreFrom rest o₁ o' (rw (parse_dir_args, nr, s) at h))))
      | inr ns ↦ elim (Option-cases (after_prefix (text "--older-than=") a)) [
        | inl bad ↦ cc (rw (parse_dir_args, nr, ns, bad) at h)
        | inr (age, e) ↦
            let o₁ : DirOptions = record o { older_than = read_days age } in
            age-AreFrom read_days (a ∷ (v ∷ rest)) (read_days age) o o'
              (joined-IsAge read_days a age (v ∷ rest) e)
              (AreFrom-behind read_days a (v ∷ rest) o₁ o'
                (parse_dir_args-AreFrom (v ∷ rest) o₁ o' (rw (parse_dir_args, nr, ns, e) at h)))
      ]
    ]
  ]

  -- From the options that are set at first.
  pub parse_dir_args-AreGiven :
      (args : List Text) (o : DirOptions)
      → parse_dir_args fs sh env read_days args
          (record { reap = false; older_than = some (7 * ms_per_day) })
        ≡ ok o
      → AreGiven read_days args o
  parse_dir_args-AreGiven args o h =
      let f = parse_dir_args-AreFrom args _ o h in
      record {
        reap = λ asked. elim (f.reap asked) [ inl never ↦ cc never | inr given ↦ given ];
        limit = f.limit;
      }
