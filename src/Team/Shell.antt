-- ===== src/Team/Shell.antt =====
-- cli/commands/TeamCommand.ts, shellQuote, and what the shell reads of such a command.
use mathlib.Core.List.{append_assoc}
use docker_claudebox.Base.{
  Bool, Bool-cases, List, Option, Text, [], all, ap, arith, false, if◌then◌else◌, inl, inr,
  is_digit, is_letter, is_name_char, nat_beq, nat_beq_iff, none, refl, some, text, true, ℕ, ◌++◌,
  ◌||◌, ◌∙◌, ◌∷◌, ◌≡◌,
}

-- `s.replace(/'/g, "'\\''")`
unfoldable pub escape_quotes : Text → Text
escape_quotes [] = []
escape_quotes (c ∷ s) =
    let rest = escape_quotes s in if nat_beq c b'\'' then text "'\\''" ++ rest else c ∷ rest

unfoldable pub shell_quote : Text → Text
unfolding escape_quotes
shell_quote s = text "'" ++ (escape_quotes s ++ text "'")

-- How the shell reads: outside quotes, inside single quotes, behind a backslash.
pub data Mode : Type 0 where
  plain quoted escaped : Mode

-- The characters that the shell takes as they stand.
unfoldable pub is_plain : ℕ → Bool
is_plain c = is_name_char c || nat_beq c b'.' || nat_beq c b'/'

-- The first word from here on, and the further words.
abbrev pub Words : Type 0
Words = Option (Text × List Text)

abbrev pub put : ℕ → Words → Words
put c none = none
put c (some (w, ws)) = some (c ∷ w, ws)

abbrev pub next_word : Words → Words
next_word none = none
next_word (some (w, ws)) = some ([], w ∷ ws)

-- The shell's reading of a command with one space between words: a quote keeps every character up
-- to the next quote, a backslash the next one; of the others only those that the shell never
-- interprets are read.
unfoldable pub read_words : Mode → Text → Words
read_words plain [] = some ([], [])
read_words quoted [] = none
read_words escaped [] = none
read_words plain (c ∷ s) =
    if nat_beq c b' '
    then next_word (read_words plain s)
    else if nat_beq c b'\''
    then read_words quoted s
    else if nat_beq c b'\\'
    then read_words escaped s
    else if is_plain c
    then put c (read_words plain s)
    else none
read_words quoted (c ∷ s) =
    if nat_beq c b'\'' then read_words plain s else put c (read_words quoted s)
read_words escaped (c ∷ s) = put c (read_words plain s)

abbrev pub all_words : Words → Option (List Text)
all_words none = none
all_words (some (w, ws)) = some (w ∷ ws)

-- The words of a command.
unfoldable pub shell_words : Text → Option (List Text)
unfolding read_words
shell_words s = all_words (read_words plain s)

abbrev pub put_all : Text → Words → Words
put_all [] r = r
put_all (c ∷ s) r = put c (put_all s r)

escaped_words :
    (s t : Text)
    → read_words quoted (escape_quotes s ++ (b'\'' ∷ t)) ≡ put_all s (read_words plain t)
unfolding read_words escape_quotes
escaped_words [] t = refl
escaped_words (c ∷ s) t = elim (Bool-cases (nat_beq c b'\'')) [
  | inl quote ↦ rw quote (rw (escaped_words s t) (rw ((nat_beq_iff c b'\'').0 quote) refl))
  | inr other ↦ rw other (rw other (ap (put c) (escaped_words s t)))
]

-- A quoted text is read as itself, whatever characters it has.
pub shell_quote-words :
    (s t : Text) → read_words plain (shell_quote s ++ t) ≡ put_all s (read_words plain t)
unfolding shell_quote read_words
shell_quote-words s t =
    ap (read_words quoted) (append_assoc (escape_quotes s) (text "'") t) ∙ escaped_words s t

plain_apart :
    (c : ℕ)
    → is_plain c ≡ true
    → (nat_beq c b' ' ≡ false) × (nat_beq c b'\'' ≡ false) × (nat_beq c b'\\' ≡ false)
unfolding is_plain is_name_char is_letter is_digit
plain_apart c h = (ground (arith, h), ground (arith, h), ground (arith, h))

pub plain_words :
    (s t : Text)
    → all is_plain s ≡ true
    → read_words plain (s ++ t) ≡ put_all s (read_words plain t)
unfolding read_words
plain_words [] t h = refl
plain_words (c ∷ s) t h =
    let here : is_plain c ≡ true = ground (arith, h) in
    let rest : all is_plain s ≡ true = ground (arith, h) in
    let (a, b, d) = plain_apart c here in rw (a, b, d, here) (ap (put c) (plain_words s t rest))
