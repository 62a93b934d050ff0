-- ===== src/Team/Roster/Sound.antt =====
-- Properties of the rosters that the parser gives.
use docker_claudebox.Team.Roster.{
  Agent, Roster, RosterError, PartialAgent, RosterState, set_agent_field, push_agent,
  finish_current, finish_agent, field_line, continue_agent, top_level_field, top_level_line,
  item_line, continuation_line, parse_line, parse_lines, check_names, roster_of, parse_roster,
  optional_value, is_team_name, is_team_char, match_key, match_item, match_field,
  strip_inline_comment, nothing_read,
}
use docker_claudebox.Base.{
  >>=-eq-ok, All, All-append, Bool-cases, Distinct, List, Option, Option-cases, Result, Text, [],
  all, any, arith, contains, eq_iff, eq_refl, err, false, if_intro, inl, inr, is_digit, is_letter,
  length, lines_of, map, nat_beq, none, not, ok, ok_injective, refl, some, starts_with, suc, text,
  text_eq, trim, trim_start, true, ℕ, ◌++◌, ◌==◌, ◌>>=◌, ◌||◌, ◌∷◌, ◌≡◌, ◌≢◌, ◌≤◌,
}

-- A path segment that stays where it is put: 1 to 64 characters, no slash, and neither `.` nor `..`.
pub record IsSegment (t : Text) : Type 0 where
  pub nonempty : t ≢ []
  pub short : length t ≤ 64
  pub no_slash : any (nat_beq b'/') t ≡ false
  pub not_dot : t ≢ text "."
  pub not_dots : t ≢ text ".."

abbrev IsTeam : Option Text → Type 0
IsTeam none = Unit
IsTeam (some t) = IsSegment t

abbrev HasName : Agent → Type 0
HasName a = a.name ≢ []

-- What the parser's state satisfies at each line.
record IsRead (st : RosterState) : Type 0 where
  named : All HasName st.agents
  team : IsTeam st.team

all_team_char-no_slash : (s : Text) → all is_team_char s ≡ true → any (nat_beq b'/') s ≡ false
unfolding is_team_char is_letter is_digit
all_team_char-no_slash [] h = refl
all_team_char-no_slash (c ∷ s) h = ground (arith, all_team_char-no_slash s)

is_team_name-IsSegment : (t : Text) → is_team_name t ≡ true → IsSegment t
unfolding is_team_name is_letter is_digit
is_team_name-IsSegment [] h = cc
is_team_name-IsSegment (c ∷ s) h = record {
  nonempty = λ p. cc p;
  short = ground arith;
  no_slash = ground (arith, all_team_char-no_slash s);
  not_dot = λ p. ground arith;
  not_dots = λ p. ground arith;
}

optional_value-IsTeam :
    (v : Text) → (v == text "" || is_team_name v) ≡ true → IsTeam (optional_value v)
optional_value-IsTeam [] h = tt
optional_value-IsTeam (c ∷ s) h = is_team_name-IsSegment (c ∷ s) h

-- `Holds r`: a result that is there satisfies the invariant.
abbrev Holds : Result RosterError RosterState → Type 0
Holds (ok st) = IsRead st
Holds (err e) = Unit

bind-Holds :
    {A : Type 0} (m : Result RosterError A) (f : A → Result RosterError RosterState)
    → ((a : A) → m ≡ ok a → Holds (f a))
    → Holds (m >>= f)
bind-Holds (ok a) f h = h a refl
bind-Holds (err e) f h = tt

push_agent-Holds :
    (st : RosterState) (agent : PartialAgent) (name : Option Text)
    → IsRead st
    → Holds (push_agent st agent name)
unfolding push_agent
push_agent-Holds st agent none i = tt
push_agent-Holds st agent (some name) i =
    if_intro Holds (name == text "") (λ _. tt)
      (λ h. record {
        named =
            All-append HasName st.agents _ i.named
              ((λ p. ground (arith, eq_iff name (text ""))), tt);
        team = i.team;
      })

finish_current-Holds :
    (st : RosterState) (current : Option PartialAgent)
    → IsRead st
    → Holds (finish_current st current)
unfolding finish_current
finish_current-Holds st none i = i
finish_current-Holds st (some agent) i = push_agent-Holds st agent agent.name i

finish_agent-Holds : (st : RosterState) → IsRead st → Holds (finish_agent st)
unfolding finish_agent
finish_agent-Holds st i = finish_current-Holds st st.current i

finish_agent-IsRead : (st st' : RosterState) → IsRead st → finish_agent st ≡ ok st' → IsRead st'
finish_agent-IsRead st st' i e = rw e at (finish_agent-Holds st i)

top_level_field-Holds :
    (st : RosterState) (key value : Text) (line : ℕ)
    → IsRead st
    → Holds (top_level_field st key value line)
unfolding top_level_field
top_level_field-Holds st key value line i =
    if_intro Holds (key == text "agents")
      (λ _.
        if_intro Holds (value == text "") (λ _. record { named = i.named; team = i.team })
          (λ _. tt))
      (λ _.
        if_intro Holds (key == text "team")
          (λ _.
            if_intro Holds (value == text "" || is_team_name value)
              (λ h. record { named = i.named; team = optional_value-IsTeam value h }) (λ _. tt))
          (λ _.
            if_intro Holds (key == text "human") (λ _. record { named = i.named; team = i.team })
              (λ _.
                if_intro Holds (key == text "github_repo")
                  (λ _. record { named = i.named; team = i.team }) (λ _. tt))))

top_level_line-Holds :
    (st : RosterState) (raw : Text) (line : ℕ) → IsRead st → Holds (top_level_line st raw line)
unfolding top_level_line
top_level_line-Holds st raw line i = bind-Holds (finish_agent st) _ (λ st' e.
    elim (Option-cases (match_key raw)) [
      | inl missing ↦ rw missing tt
      | inr (kv, found) ↦ rw found (
          top_level_field-Holds st' kv.0 (strip_inline_comment kv.1) line
            (finish_agent-IsRead st st' i e))
    ])

item_line-Holds :
    (st : RosterState) (key value : Text) (line : ℕ)
    → IsRead st
    → Holds (item_line st key value line)
unfolding item_line
item_line-Holds st key value line i = bind-Holds (finish_agent st) _ (λ st' e.
    bind-Holds (set_agent_field _ key (strip_inline_comment value) line) _ (λ agent _.
      let j = finish_agent-IsRead st st' i e in record { named = j.named; team = j.team }))

field_line-Holds :
    (st : RosterState) (agent : PartialAgent) (m : Option (Text × Text)) (raw : Text) (line : ℕ)
    → IsRead st
    → Holds (field_line st agent m raw line)
unfolding field_line
field_line-Holds st agent none raw line i = tt
field_line-Holds st agent (some (key, value)) raw line i =
    bind-Holds (set_agent_field agent key (strip_inline_comment value) line) _
      (λ _ _. record { named = i.named; team = i.team })

continue_agent-Holds :
    (st : RosterState) (current : Option PartialAgent) (raw : Text) (line : ℕ)
    → IsRead st
    → Holds (continue_agent st current raw line)
unfolding continue_agent
continue_agent-Holds st none raw line i = tt
continue_agent-Holds st (some agent) raw line i =
    field_line-Holds st agent (match_field raw) raw line i

continuation_line-Holds :
    (st : RosterState) (raw : Text) (line : ℕ) → IsRead st → Holds (continuation_line st raw line)
unfolding continuation_line
continuation_line-Holds st raw line i = continue_agent-Holds st st.current raw line i

parse_line-Holds :
    (st : RosterState) (raw : Text) (line : ℕ) → IsRead st → Holds (parse_line st raw line)
unfolding parse_line
parse_line-Holds st raw line i =
    if_intro Holds (trim raw == text "" || starts_with (text "#") (trim raw)) (λ _. i)
      (λ _.
        if_intro Holds (trim_start raw == raw) (λ _. top_level_line-Holds st raw line i)
          (λ _.
            if_intro Holds (not (st.in_agents)) (λ _. tt)
              (λ _. elim (Option-cases (match_item raw)) [
                | inl missing ↦ rw missing (continuation_line-Holds st raw line i)
                | inr (kv, found) ↦ rw found (item_line-Holds st kv.0 kv.1 line i)
              ])))

parse_lines-Holds :
    (lines : List Text) (st : RosterState) (line : ℕ)
    → IsRead st
    → Holds (parse_lines st lines line)
unfolding parse_lines
parse_lines-Holds [] st line i = i
parse_lines-Holds (raw ∷ lines) st line i =
    bind-Holds (parse_line st raw line) _
      (λ st' e. parse_lines-Holds lines st' (suc line) (rw e at (parse_line-Holds st raw line i)))

contains-append :
    (xs : List Text) (y v : Text) → contains (xs ++ (y ∷ [])) v ≡ (contains xs v || y == v)
contains-append [] y v = ground arith
contains-append (x ∷ xs) y v = ground (arith, contains-append xs y v)

-- A list of names that the check lets through repeats none, neither itself nor those seen before.
check_names-Distinct :
    (seen : List Text) (agents : List Agent) (r : List Text)
    → check_names seen agents ≡ ok r
    → Distinct (map (λ a. a.name) agents)
      × ((v : Text) → contains seen v ≡ true → contains (map (λ a. a.name) agents) v ≡ false)
unfolding check_names
check_names-Distinct seen [] r h = (tt, λ v _. refl)
check_names-Distinct seen (a ∷ agents) r h = elim (Bool-cases (contains seen a.name)) [
  | inl again ↦ cc (rw again at h)
  | inr fresh ↦
      let (distinct, apart) =
        check_names-Distinct (seen ++ (a.name ∷ [])) agents r (rw fresh at h) in
      (
        (
          apart a.name (ground (arith, contains-append seen a.name a.name, eq_refl a.name)),
          distinct,
        ),
        λ v known.
            ground
              (arith, eq_iff a.name v, apart v (ground (arith, contains-append seen a.name v))),
      )
]

-- What a caller may rely on in a roster that was read.
pub record IsRoster (r : Roster) : Type 0 where
  pub some_agent : r.agents ≢ []
  pub named : All HasName r.agents
  pub distinct : Distinct (map (λ a. a.name) r.agents)
  pub team : IsTeam r.team

roster_of-IsRoster :
    (st : RosterState) (agents : List Agent) (r : Roster)
    → All HasName agents
    → IsTeam st.team
    → roster_of st agents ≡ ok r
    → IsRoster r
unfolding roster_of
roster_of-IsRoster st [] r named team h = cc
roster_of-IsRoster st (a ∷ agents) r named team h =
    let (names, passed, e) = >>=-eq-ok (check_names [] (a ∷ agents)) _ h in
    let made : IsRoster (record {
      agents = a ∷ agents;
      team = st.team;
      human = st.human;
      github_repo = st.github_repo;
    }) =
      record {
        some_agent = λ p. cc p;
        named = named;
        distinct = (check_names-Distinct [] (a ∷ agents) names passed).0;
        team = team;
      } in
    rw (← ok_injective e) made

-- Every roster read from a text has at least one agent, every agent has a name, no two agents have
-- the same, and the team's name, if there is one, is a path segment of 1 to 64 characters, with no
-- slash, that is neither `.` nor `..`.
pub parse_roster-IsRoster : (s : Text) (r : Roster) → parse_roster s ≡ ok r → IsRoster r
unfolding parse_roster
parse_roster-IsRoster s r h =
    let (st, read, h₁) = >>=-eq-ok (parse_lines nothing_read (lines_of s) 1) _ h in
    let (st', finished, h₂) = >>=-eq-ok (finish_agent st) _ h₁ in
    let start : IsRead nothing_read = record { named = tt; team = tt } in
    let i =
      finish_agent-IsRead st st' (rw read at (parse_lines-Holds (lines_of s) nothing_read 1 start))
        finished in
    roster_of-IsRoster st' st'.agents r i.named i.team h₂
