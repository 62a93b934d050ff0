-- ===== src/Watch/Header.antt =====
-- services/AgentTeamHeader.ts: the header line of a message and the delivery predicate. The regular
-- expressions are written as scanners: where `[\w-]*` and `->` compete for a dash, the last dash of
-- the run goes to the arrow, as by backtracking.
pub mod RoundTrip
pub mod Delivery
use mathlib.Core.List.{reverse}
use docker_claudebox.Base.{
  Bool, List, Option, Result, Text, [], all, contains, drop_run, err, false, if◌then◌else◌,
  is_letter, is_name_char, is_space, join_with, nat_beq, none, not, ok, refl, some, split_on,
  starts_with, take_run, text, text_beq, text_eq, true, ℕ, ◌&&◌, ◌++◌, ◌==◌, ◌>>=◌, ◌>>◌, ◌||◌, ◌∷◌,
  ◌≡◌,
}

-- `sender` is `none` for the legacy form.
pub record ParsedHeader : Type 0 where
  pub sender : Option Text
  pub recipients : List Text
  pub legacy : Bool

-- `SENDER_TOKEN_RE`: `[A-Za-z][\w-]*`
unfoldable pub is_token : Text → Bool
unfolding is_letter is_name_char
is_token [] = false
is_token (c ∷ s) = is_letter c && all is_name_char s

unfoldable pub first_line_of : Text → Text
unfolding take_run
first_line_of body = take_run (λ c. not (nat_beq c 10)) body

-- `\*{0,2}`
unfoldable pub drop_stars : Text → Text
drop_stars (c ∷ (d ∷ s)) =
    if nat_beq c b'*' then (if nat_beq d b'*' then s else d ∷ s) else c ∷ (d ∷ s)
drop_stars (c ∷ []) = if nat_beq c b'*' then [] else c ∷ []
drop_stars [] = []

unfoldable pub is_list_char : ℕ → Bool
unfolding is_name_char
is_list_char c = is_name_char c || nat_beq c b','

-- `(?<recipients>name(?:,name)*):` and the capture split at its commas
unfoldable pub recipients_of : Text → Option (List Text)
unfolding is_list_char is_token take_run drop_run split_on starts_with
recipients_of s =
    let names = split_on b',' (take_run is_list_char s) in
    if all is_token names && starts_with (text ":") (drop_run is_list_char s)
    then some names
    else none

-- What follows the run of name characters: a colon, or `>` and the recipients, where the arrow's
-- dash is the last character of the run.
unfoldable pub after_run : Text → Text → Option ParsedHeader
unfolding recipients_of
after_run run [] = none
after_run run (c ∷ rest) =
    if nat_beq c b':'
    then (if is_token run
        then some (record { sender = some run; recipients = []; legacy = false })
        else none)
    else if nat_beq c b'>'
    then elim (reverse run) [
      | [] ↦ none
      | d ∷ back ↦
          if nat_beq d b'-' && is_token (reverse back)
          then elim (recipients_of rest) [
            | none ↦ none
            | some names ↦
                some (record { sender = some (reverse back); recipients = names; legacy = false })
          ]
          else none
    ]
    else none

-- `NEW_HEADER_RE`
unfoldable pub match_new : Text → Option ParsedHeader
unfolding drop_run is_space drop_stars take_run after_run is_name_char
match_new line =
    let s = drop_stars (drop_run is_space line) in
    after_run (take_run is_name_char s) (drop_run is_name_char s)

-- `LEGACY_HEADER_RE`; 0x2192 is the arrow →
unfoldable pub match_legacy : Text → Option ParsedHeader
unfolding drop_run is_space drop_stars recipients_of
match_legacy line = elim (drop_stars (drop_run is_space line)) [
  | [] ↦ none
  | c ∷ s ↦
      if nat_beq c 0x2192
      then elim (recipients_of (drop_run is_space s)) [
        | none ↦ none
        | some names ↦ some (record { sender = none; recipients = names; legacy = true })
      ]
      else none
]

unfoldable pub parse_header : Text → Option ParsedHeader
parse_header body =
    let line = first_line_of body in
    if text_beq line []
    then none
    else elim (match_new line) [ some h ↦ some h | none ↦ match_legacy line ]

-- The sender is `self`: false for the legacy form, which has none.
unfoldable pub is_sent_by : Option Text → Text → Bool
is_sent_by none self = false
is_sent_by (some s) self = s == self

unfoldable pub surfaces_for_agent : Option ParsedHeader → Text → Bool
surfaces_for_agent none self = true
surfaces_for_agent (some h) self =
    if h.legacy
    then contains h.recipients self
    else if is_sent_by h.sender self
    then false
    else elim h.recipients [ [] ↦ true | _ ∷ _ ↦ contains h.recipients self ]

-- The token that `formatHeader` refuses.
pub data HeaderError : Type 0 where
  invalid_sender invalid_recipient : Text → HeaderError

unfoldable pub check_recipients : List Text → Result HeaderError Unit
unfolding is_token
check_recipients [] = ok tt
check_recipients (r ∷ rs) = if is_token r then check_recipients rs else err (invalid_recipient r)

-- The header without its checks.
unfoldable pub header_line : Text → List Text → Text
unfolding join_with
header_line sender [] = sender ++ text ":"
header_line sender (r ∷ rs) = sender ++ (text "->" ++ (join_with (text ",") (r ∷ rs) ++ text ":"))

unfoldable pub format_header : Text → List Text → Result HeaderError Text
format_header sender recipients =
    if is_token sender
    then (do check_recipients recipients; ok (header_line sender recipients))
    else err (invalid_sender sender)

parse_header_runs :
    parse_header (text "  **Arfy-->Bear,Al_1:** done: ok")
    ≡ some (record {
      sender = some (text "Arfy-");
      recipients = text "Bear" ∷ text "Al_1" ∷ [];
      legacy = false;
    })
unfolding parse_header first_line_of match_new match_legacy
parse_header_runs = refl
