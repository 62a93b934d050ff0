-- ===== src/Container/Passthrough.antt =====
-- services/EnvMountPassthrough.ts: variables and mounts that the caller's environment hands on.
use docker_claudebox.Base.{
  Bool, Bool-cases, Dict, List, Option, Text, [], after_prefix, ap, arith, contains, eq_iff, false,
  if◌then◌else◌, inl, inr, lookup, nat_beq_iff, none, refl, some, split_on, starts_with, text,
  text_beq, text_eq, text_ltb, ◌++◌, ◌==◌, ◌||◌, ◌∙◌, ◌∷◌, ◌≡◌,
}

abbrev pub env_prefix : Text
env_prefix = text "DRIDOCK_ENV_"

abbrev pub mount_prefix : Text
mount_prefix = text "DRIDOCK_MOUNT_"

unfoldable pub insert_sorted : Text → List Text → List Text
insert_sorted k [] = k ∷ []
insert_sorted k (j ∷ ks) =
    let rest = insert_sorted k ks in if text_ltb k j then k ∷ (j ∷ ks) else j ∷ rest

-- `keys.sort()`
unfoldable pub sorted : List Text → List Text
sorted [] = []
sorted (k ∷ ks) = insert_sorted k (sorted ks)

abbrev pub keys_of : Dict Text → List Text
keys_of [] = []
keys_of (e ∷ env) = e.0 ∷ keys_of env

abbrev pub or_empty : Option Text → Text
or_empty none = []
or_empty (some v) = v

-- `env[key] ?? ""`
unfoldable pub value_in : Dict Text → Text → Text
value_in env key = or_empty (lookup key env)

-- The pair that a key adds, by what follows the prefix.
unfoldable pub addition_of : Dict Text → Text → Option Text → List (Text × Text)
addition_of env key none = []
addition_of env key (some stripped) =
    if stripped == text "" then [] else (stripped, value_in env key) ∷ []

unfoldable pub env_addition : Dict Text → Text → List (Text × Text)
env_addition env key = addition_of env key (after_prefix env_prefix key)

unfoldable pub env_additions : Dict Text → List Text → List (Text × Text)
env_additions env [] = []
env_additions env (key ∷ keys) = env_addition env key ++ env_additions env keys

unfoldable pub collect_env : Dict Text → List (Text × Text)
collect_env env = env_additions env (sorted (keys_of env))

-- A line `NAME=value` for each pair.
unfoldable pub sidecar_content : List (Text × Text) → Text
sidecar_content [] = []
sidecar_content ((k, v) ∷ pairs) = k ++ (b'=' ∷ (v ++ (10 ∷ sidecar_content pairs)))

-- Two pieces at most: what follows a second colon is dropped.
unfoldable pub mount_of : Text → List (Text × Text)
mount_of value = if value == text "" then [] else elim (split_on b':' value) [
  | [] ↦ []
  | host ∷ [] ↦ (host, host) ∷ []
  | host ∷ (container ∷ _) ↦ (host, container) ∷ []
]

unfoldable pub mount_additions : Dict Text → List Text → List (Text × Text)
mount_additions env [] = []
mount_additions env (key ∷ keys) =
    let rest = mount_additions env keys in
    if starts_with mount_prefix key then mount_of (value_in env key) ++ rest else rest

unfoldable pub collect_mounts : Dict Text → List (Text × Text)
collect_mounts env = mount_additions env (sorted (keys_of env))

or_swap : (a b c : Bool) → (a || (b || c)) ≡ (b || (a || c))
or_swap a b c = ground arith

insert_sorted-contains :
    (k x : Text) (ks : List Text) → contains (insert_sorted k ks) x ≡ (k == x || contains ks x)
unfolding insert_sorted
insert_sorted-contains k x [] = refl
insert_sorted-contains k x (j ∷ ks) = elim (Bool-cases (text_ltb k j)) [
  | inl before ↦ rw before refl
  | inr after ↦
      rw (after, insert_sorted-contains k x ks) (or_swap (j == x) (k == x) (contains ks x))
]

sorted-contains : (x : Text) (ks : List Text) → contains (sorted ks) x ≡ contains ks x
unfolding sorted
sorted-contains x [] = refl
sorted-contains x (k ∷ ks) = rw (insert_sorted-contains k x (sorted ks), sorted-contains x ks) refl

after_prefix-some : (p s t : Text) → after_prefix p s ≡ some t → s ≡ p ++ t
unfolding after_prefix
after_prefix-some [] s t h = cc
after_prefix-some (c ∷ p) [] t h = cc
after_prefix-some (c ∷ p) (d ∷ s) t h = ground (arith, nat_beq_iff c d, after_prefix-some p s t)

after_prefix-append : (p t : Text) → after_prefix p (p ++ t) ≡ some t
unfolding after_prefix
after_prefix-append [] t = refl
after_prefix-append (c ∷ p) t = ground (arith, nat_beq_iff c c, after_prefix-append p t)

empty_beq : (k : Text) → (k == text "") ≡ false → text_beq [] k ≡ false
empty_beq [] h = cc
empty_beq (c ∷ k) h = refl

addition_of-lookup :
    (env : Dict Text) (key k : Text) (rest : List (Text × Text)) (o : Option Text)
    → (k == text "") ≡ false
    → after_prefix env_prefix key ≡ o
    → lookup k (addition_of env key o ++ rest)
      ≡ (if key == env_prefix ++ k then some (value_in env key) else lookup k rest)
unfolding addition_of lookup
addition_of-lookup env key k rest none full e = elim (Bool-cases (key == env_prefix ++ k)) [
  | inl same ↦
      let p = (eq_iff key (env_prefix ++ k)).0 same in
      cc (e, ap (after_prefix env_prefix) p, after_prefix-append env_prefix k)
  | inr other ↦ rw other refl
]
addition_of-lookup env key k rest (some stripped) full e =
    let p = after_prefix-some env_prefix key stripped e in
    elim (Bool-cases (stripped == text "")) [
      | inl empty ↦ let q = (eq_iff stripped (text "")).0 empty in rw (p, q, empty_beq k full) refl
      | inr given ↦ rw (given, p) refl
    ]

-- No pair has an empty name.
addition_of-lookup_empty :
    (env : Dict Text) (key : Text) (rest : List (Text × Text)) (o : Option Text)
    → lookup [] (addition_of env key o ++ rest) ≡ lookup [] rest
unfolding addition_of lookup
addition_of-lookup_empty env key rest none = refl
addition_of-lookup_empty env key rest (some []) = refl
addition_of-lookup_empty env key rest (some (c ∷ s)) = refl

additions-lookup_empty :
    (env : Dict Text) (keys : List Text) → lookup [] (env_additions env keys) ≡ none
unfolding env_additions env_addition lookup
additions-lookup_empty env [] = refl
additions-lookup_empty env (key ∷ keys) =
    addition_of-lookup_empty env key (env_additions env keys) (after_prefix env_prefix key)
    ∙ additions-lookup_empty env keys

additions-lookup :
    (env : Dict Text) (k : Text) (keys : List Text)
    → (k == text "") ≡ false
    → lookup k (env_additions env keys)
      ≡ (if contains keys (env_prefix ++ k) then some (value_in env (env_prefix ++ k)) else none)
unfolding env_additions env_addition lookup
additions-lookup env k [] full = refl
additions-lookup env k (key ∷ keys) full =
    addition_of-lookup env key k (env_additions env keys) _ full refl
    ∙ elim (Bool-cases (key == env_prefix ++ k)) [
      | inl same ↦ rw (same, (eq_iff key (env_prefix ++ k)).0 same) refl
      | inr other ↦ rw other (additions-lookup env k keys full)
    ]

-- A name is a key exactly when it is looked up.
keys_of-lookup :
    (env d : Dict Text) (x : Text)
    → lookup x env ≡ lookup x d
    → (if contains (keys_of d) x then some (value_in env x) else none) ≡ lookup x d
unfolding lookup value_in
keys_of-lookup env [] x h = refl
keys_of-lookup env (entry ∷ d) x h = elim (Bool-cases (entry.0 == x)) [
  | inl here ↦ rw here (ap some (ap or_empty (rw here at h)))
  | inr later ↦ rw later (keys_of-lookup env d x (rw later at h))
]

-- What a container finds under a name is what the environment has under the prefixed name, and nothing
-- is under the empty name; the order of the pairs, sorted by key, does not matter to it.
pub collect_env-lookup :
    (env : Dict Text) (k : Text)
    → lookup k (collect_env env) ≡ (if k == text "" then none else lookup (env_prefix ++ k) env)
unfolding collect_env
collect_env-lookup env [] = additions-lookup_empty env (sorted (keys_of env))
collect_env-lookup env (c ∷ k) =
    additions-lookup env (c ∷ k) (sorted (keys_of env)) refl
    ∙ (ap (λ b. if b then some (value_in env (env_prefix ++ c ∷ k)) else none)
          (sorted-contains (env_prefix ++ c ∷ k) (keys_of env))
        ∙ keys_of-lookup env env (env_prefix ++ c ∷ k) refl)
