-- ===== src/Team/Roster/Resolve.antt =====
-- The name that a runtime goes by, from the environment and the roster.
use docker_claudebox.Team.Roster.{
  Agent, Roster, RosterResolve, from_env, from_single_agent, no_env_and_multi_agent,
  env_not_in_roster, names_of, fall_back, resolve_value, resolve_self_name,
}
use docker_claudebox.Base.{
  Dict, List, Option, Text, [], any, ap, arith, contains, false, if_intro, if◌then◌else◌, length,
  lookup, map, none, refl, some, sym, text, text_eq, true, ◌==◌, ◌∙◌, ◌∷◌, ◌≡◌, ◌≢◌,
}

any-name_iff :
    (v : Text) (agents : List Agent)
    → any (λ a. a.name == v) agents ≡ contains (map (λ a. a.name) agents) v
any-name_iff v [] = refl
any-name_iff v (a ∷ agents) = rw (any-name_iff v agents)

-- A setting counts as unset when it is empty.
abbrev nonempty : Option Text → Option Text
nonempty none = none
nonempty (some v) = if v == text "" then none else some v

-- `DRIDOCK_AGENT_NAME` as the code reads it.
unfoldable pub self_setting : Dict Text → Option Text
self_setting env = nonempty (lookup (text "DRIDOCK_AGENT_NAME") env)

-- `IsResolved env roster r`: what holds of the environment and the roster when this is the answer.
abbrev pub IsResolved : Dict Text → Roster → RosterResolve → Type 0
IsResolved env roster (from_env v) =
    (self_setting env ≡ some v) × (contains (names_of roster) v ≡ true)
IsResolved env roster (from_single_agent v) = (self_setting env ≡ none) × (names_of roster ≡ v ∷ [])
IsResolved env roster (no_env_and_multi_agent names) =
    (self_setting env ≡ none) × (names ≡ names_of roster) × (length names ≢ 1)
IsResolved env roster (env_not_in_roster v names) =
    (self_setting env ≡ some v) × (names ≡ names_of roster) × (contains names v ≡ false)

fall_back-IsResolved :
    (env : Dict Text) (roster : Roster) (agents : List Agent)
    → roster.agents ≡ agents
    → self_setting env ≡ none
    → IsResolved env roster (fall_back agents)
unfolding fall_back
fall_back-IsResolved env roster [] e h = (h, rw e refl, λ p. ground (arith, e))
fall_back-IsResolved env roster (a ∷ []) e h = (h, rw e refl)
fall_back-IsResolved env roster (a ∷ (b ∷ r)) e h =
    (h, rw e refl, λ p. ground (arith, p, ap (λ l. length (map (λ x. x.name) l)) e))

resolve_value-IsResolved :
    (env : Dict Text) (roster : Roster) (o : Option Text)
    → self_setting env ≡ nonempty o
    → IsResolved env roster (resolve_value roster o)
unfolding resolve_value
resolve_value-IsResolved env roster none h = fall_back-IsResolved env roster roster.agents refl h
resolve_value-IsResolved env roster (some v) h =
    if_intro (IsResolved env roster) (v == text "")
      (λ empty. fall_back-IsResolved env roster roster.agents refl (rw empty at h))
      (λ full.
        if_intro (IsResolved env roster) (any (λ a. a.name == v) roster.agents)
          (λ known. (rw full at h, sym (any-name_iff v roster.agents) ∙ known))
          (λ unknown. (rw full at h, refl, sym (any-name_iff v roster.agents) ∙ unknown)))

-- A name is resolved to that of the environment when it is set and in the roster, else, when it is
-- not set, to the only one of the roster; a name set that is not in the roster and a roster of more
-- or fewer names than one are refused, each with the roster's names.
pub resolve_self_name-IsResolved :
    (env : Dict Text) (roster : Roster) → IsResolved env roster (resolve_self_name env roster)
unfolding resolve_self_name self_setting
resolve_self_name-IsResolved env roster =
    resolve_value-IsResolved env roster (lookup (text "DRIDOCK_AGENT_NAME") env) refl
