-- ===== src/Container/Name.antt =====
-- services/ContainerName.ts: the name of a workspace's container.
use mathlib.Core.List.{append-nil, append_cancel_left, append_cancel_right}
use docker_claudebox.Base.{
  Text, [], any, ap, arith, false, if◌then◌else◌, nat_beq, or_false, refl, text, ℕ, ◌++◌, ◌∷◌, ◌≡◌,
}

pub data ContainerRole : Type 0 where
  interactive programmatic cron : ContainerRole

-- `cwd.replaceAll("/", "_")`
unfoldable pub replace_slashes : Text → Text
replace_slashes [] = []
replace_slashes (c ∷ s) = (if nat_beq c b'/' then b'_' else c) ∷ replace_slashes s

abbrev pub role_suffix : ContainerRole → Text
role_suffix interactive = []
role_suffix programmatic = text "_prog"
role_suffix cron = text "_cron"

unfoldable pub container_name : Text → ContainerRole → Text
container_name cwd role = text "claude-" ++ (replace_slashes cwd ++ role_suffix role)

replace_slashes-append :
    (s t : Text) → replace_slashes (s ++ t) ≡ replace_slashes s ++ replace_slashes t
unfolding replace_slashes
replace_slashes-append [] t = refl
replace_slashes-append (c ∷ s) t = rw (replace_slashes-append s t) refl

cons_injective : (a b : ℕ) (s t : Text) → Path Text (a ∷ s) (b ∷ t) → (a ≡ b) × (s ≡ t)
cons_injective a b s t h = (cc, cc)

char_injective :
    (c d : ℕ)
    → nat_beq c b'_' ≡ false
    → nat_beq d b'_' ≡ false
    → (if nat_beq c b'/' then b'_' else c) ≡ (if nat_beq d b'/' then b'_' else d)
    → c ≡ d
char_injective c d h k e = ground arith

replace_slashes-injective :
    (s t : Text)
    → any (λ c. nat_beq c b'_') s ≡ false
    → any (λ c. nat_beq c b'_') t ≡ false
    → replace_slashes s ≡ replace_slashes t
    → s ≡ t
unfolding replace_slashes
replace_slashes-injective [] [] h k e = refl
replace_slashes-injective [] (d ∷ t) h k e = cc
replace_slashes-injective (c ∷ s) [] h k e = cc
replace_slashes-injective (c ∷ s) (d ∷ t) h k e =
    let (hc, hs) = or_false (nat_beq c b'_') _ h in
    let (kd, kt) = or_false (nat_beq d b'_') _ k in
    let (e₀, e₁) = cons_injective _ _ _ _ e in
    cc (char_injective c d hc kd e₀, replace_slashes-injective s t hs kt e₁)

-- Two directories without an underscore in their paths have different containers of the same role.
pub container_name-injective :
    (role : ContainerRole) (s t : Text)
    → any (λ c. nat_beq c b'_') s ≡ false
    → any (λ c. nat_beq c b'_') t ≡ false
    → container_name s role ≡ container_name t role
    → s ≡ t
unfolding container_name
container_name-injective role s t h k e =
    replace_slashes-injective s t h k
      (append_cancel_right _ _ (role_suffix role) (append_cancel_left (text "claude-") _ _ e))

-- The names of the roles are not apart: the container of the programmatic mode in a directory has
-- the name of the interactive one in its subdirectory `prog`.
pub container_name-prog :
    (cwd : Text)
    → container_name (cwd ++ text "/prog") interactive ≡ container_name cwd programmatic
unfolding container_name replace_slashes
container_name-prog cwd =
    rw (replace_slashes-append cwd (text "/prog")) (ap (λ t. text "claude-" ++ t) (append-nil _))
