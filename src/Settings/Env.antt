-- ===== src/Settings/Env.antt =====
-- domain/EnvResolver.ts: dridock's settings in the environment.
use docker_claudebox.Image.Ensure.{to_lower}
use docker_claudebox.Base.{
  Bool, Bool-cases, Dict, Option, Result, Text, [], ap, arith, contains, eq_iff, err, false,
  if◌then◌else◌, inl, inr, lookup, none, ok, ok_injective, some, text, text_eq, ◌++◌, ◌==◌, ◌↔◌,
  ◌∷◌, ◌≡◌, ◌≢◌,
}

-- `MissingEnvError`, with the setting's name.
pub data EnvError : Type 0 where
  missing_env : Text → EnvError

abbrev pub or_default : Option Text → Option Text → Option Text
or_default (some v) fallback = some v
or_default none fallback = fallback

unfoldable pub get_setting : Dict Text → Text → Option Text → Option Text
get_setting env name fallback = or_default (lookup (text "DRIDOCK_" ++ name) env) fallback

abbrev pub present : Text → Option Text → Result EnvError Text
present name none = err (missing_env name)
present name (some v) = if v == text "" then err (missing_env name) else ok v

unfoldable pub require_setting : Dict Text → Text → Result EnvError Text
require_setting env name = present name (get_setting env name none)

abbrev pub is_on : Option Text → Bool
is_on none = false
is_on (some v) = contains (text "1" ∷ text "true" ∷ text "yes" ∷ text "on" ∷ []) (to_lower v)

-- `toLowerCase` beyond ASCII gives none of the four words.
unfoldable pub bool_setting : Dict Text → Text → Bool
bool_setting env name = is_on (get_setting env name none)

present_iff :
    (name v : Text) (o : Option Text)
    → (present name (or_default o none) ≡ ok v) ↔ ((o ≡ some v) × (v ≢ text ""))
present_iff name v none = (λ h. cc h, λ p. cc p.0)
present_iff name v (some u) = elim (Bool-cases (u == text "")) [
  | inl empty ↦ rw empty (λ h. cc h, λ p. absurd (p.1 (cc (p.0, (eq_iff u (text "")).0 empty))))
  | inr full ↦ rw full (
    λ h. (ap some (ok_injective h), λ q. ground (arith, full, ok_injective h, eq_iff u (text ""))),
    λ p. cc p.0,
  )
]

-- A required setting is given exactly when the environment has it under the prefixed name and it is
-- not empty; a setting that is set but empty counts as missing.
require_setting_iff :
    (env : Dict Text) (name v : Text)
    → (require_setting env name ≡ ok v)
      ↔ ((lookup (text "DRIDOCK_" ++ name) env ≡ some v) × (v ≢ text ""))
unfolding require_setting get_setting
require_setting_iff env name v = present_iff name v (lookup (text "DRIDOCK_" ++ name) env)
