-- ===== src/Watch/Header/RoundTrip.antt =====
-- `parseHeader` on what `formatHeader` writes.
use mathlib.Core.List.{reverse, reverse-append, reverse-reverse, append_assoc}
use docker_claudebox.Watch.Header.{
  ParsedHeader, is_token, first_line_of, drop_stars, is_list_char, recipients_of, match_new,
  parse_header, check_recipients, header_line, format_header,
}
use docker_claudebox.Base.{
  Bool, List, Text, [], all, all-append, all-join_with, all_weaken, arith, drop_run,
  drop_run-append, drop_run_none, false, if◌then◌else◌, is_letter, is_name_char, is_space,
  join_with, nat_beq, not, ok, refl, some, split_on, split_on-join_with, take_run-append,
  take_run-append_all, text, text_beq, true, ℕ, ◌++◌, ◌∷◌, ◌≡◌,
}

abbrev HasNoBreak : Text → Type 0
HasNoBreak s = all (λ c. not (nat_beq c 10)) s ≡ true

name_char-not_break : (c : ℕ) → is_name_char c ≡ true → not (nat_beq c 10) ≡ true
unfolding is_name_char
name_char-not_break c h = ground arith

name_char-list_char : (c : ℕ) → is_name_char c ≡ true → is_list_char c ≡ true
unfolding is_list_char
name_char-list_char c h = rw h

name_char-not_comma :
    (c : ℕ) → is_name_char c ≡ true → (if nat_beq c b',' then false else true) ≡ true
unfolding is_name_char
name_char-not_comma c h = ground arith

letter-name_char : (c : ℕ) → is_letter c ≡ true → is_name_char c ≡ true
unfolding is_name_char
letter-name_char c h = ground arith

is_token-name_chars : (s : Text) → is_token s ≡ true → all is_name_char s ≡ true
unfolding is_token
is_token-name_chars [] h = refl
is_token-name_chars (c ∷ s) h = ground (arith, letter-name_char c)

-- What holds of every name character holds of every character of every token.
tokens-all :
    (q : ℕ → Bool) (ps : List Text)
    → ((c : ℕ) → is_name_char c ≡ true → q c ≡ true)
    → all is_token ps ≡ true
    → all (all q) ps ≡ true
tokens-all q [] f h = refl
tokens-all q (p ∷ ps) f h =
    ground (arith, is_token-name_chars p, all_weaken is_name_char q p f, tokens-all q ps f)

recipients_of-join_with :
    (r : Text) (rs : List Text) (rest : Text)
    → all is_token (r ∷ rs) ≡ true
    → recipients_of (join_with (text ",") (r ∷ rs) ++ b':' ∷ rest) ≡ some (r ∷ rs)
unfolding recipients_of
recipients_of-join_with r rs rest h =
    let chars : all is_list_char (join_with (text ",") (r ∷ rs)) ≡ true =
      all-join_with is_list_char (text ",") (r ∷ rs) refl
        (tokens-all is_list_char (r ∷ rs) name_char-list_char h) in
    let pieces : split_on b',' (join_with (text ",") (r ∷ rs)) ≡ r ∷ rs =
      split_on-join_with b',' r rs (tokens-all _ (r ∷ rs) name_char-not_comma h) in
    rw (
      take_run-append is_list_char (join_with (text ",") (r ∷ rs)) b':' rest chars refl,
      drop_run-append is_list_char (join_with (text ",") (r ∷ rs)) b':' rest chars refl,
      pieces,
      h,
    )

drop_stars_none : (c : ℕ) (t : Text) → nat_beq c b'*' ≡ false → drop_stars (c ∷ t) ≡ c ∷ t
unfolding drop_stars
drop_stars_none c [] h = ground arith
drop_stars_none c (d ∷ t) h = ground arith

letter-not_space : (c : ℕ) → is_letter c ≡ true → is_space c ≡ false
unfolding is_letter is_space
letter-not_space c h = ground arith

letter-not_star : (c : ℕ) → is_letter c ≡ true → nat_beq c b'*' ≡ false
unfolding is_letter
letter-not_star c h = ground arith

-- White space and stars before a token: there are none to drop.
drop-token : (s t : Text) → is_token s ≡ true → drop_stars (drop_run is_space (s ++ t)) ≡ s ++ t
unfolding is_token
drop-token [] t h = cc
drop-token (c ∷ s) t h =
    let letter : is_letter c ≡ true = ground arith in
    rw (drop_run_none is_space c (s ++ t) (letter-not_space c letter))
      (drop_stars_none c (s ++ t) (letter-not_star c letter))

match_new-broadcast :
    (s rest : Text)
    → is_token s ≡ true
    → match_new (s ++ b':' ∷ rest)
      ≡ some (record { sender = some s; recipients = []; legacy = false })
unfolding match_new
match_new-broadcast s rest h =
    let chars = is_token-name_chars s h in
    rw (
      drop-token s (b':' ∷ rest) h,
      take_run-append is_name_char s b':' rest chars refl,
      drop_run-append is_name_char s b':' rest chars refl,
      h,
    )

match_new-directed :
    (s r : Text) (rs : List Text) (rest : Text)
    → is_token s ≡ true
    → all is_token (r ∷ rs) ≡ true
    → match_new (s ++ b'-' ∷ b'>' ∷ (join_with (text ",") (r ∷ rs) ++ b':' ∷ rest))
      ≡ some (record { sender = some s; recipients = r ∷ rs; legacy = false })
unfolding match_new
match_new-directed s r rs rest h k =
    let tail = join_with (text ",") (r ∷ rs) ++ b':' ∷ rest in
    let chars : all is_name_char (s ++ b'-' ∷ []) ≡ true =
      all-append is_name_char s (b'-' ∷ []) (is_token-name_chars s h) refl in
    let back : reverse (s ++ b'-' ∷ []) ≡ b'-' ∷ reverse s = reverse-append s (b'-' ∷ []) in
    rw
      (
        drop-token s (b'-' ∷ b'>' ∷ tail) h,
        ← append_assoc s (b'-' ∷ []) (b'>' ∷ tail),
        take_run-append is_name_char (s ++ b'-' ∷ []) b'>' tail chars refl,
        drop_run-append is_name_char (s ++ b'-' ∷ []) b'>' tail chars refl,
        back,
        reverse-reverse s,
        h,
        recipients_of-join_with r rs rest k,
      )
      (rw (reverse-reverse s))

-- The first line of a message is its header line and what follows on that line.
first_line_of-append : (s t : Text) → HasNoBreak s → first_line_of (s ++ t) ≡ s ++ first_line_of t
unfolding first_line_of
first_line_of-append s t h = take_run-append_all (λ c. not (nat_beq c 10)) s t h

token-HasNoBreak : (s : Text) → is_token s ≡ true → HasNoBreak s
token-HasNoBreak s h = all_weaken is_name_char _ s name_char-not_break (is_token-name_chars s h)

names-HasNoBreak : (ps : List Text) → all is_token ps ≡ true → HasNoBreak (join_with (text ",") ps)
names-HasNoBreak ps h = all-join_with _ (text ",") ps refl (tokens-all _ ps name_char-not_break h)

header_line-HasNoBreak :
    (s : Text) (ps : List Text)
    → is_token s ≡ true
    → all is_token ps ≡ true
    → HasNoBreak (header_line s ps)
unfolding header_line
header_line-HasNoBreak s [] h k = all-append _ s (text ":") (token-HasNoBreak s h) refl
header_line-HasNoBreak s (r ∷ rs) h k =
    all-append _ s (text "->" ++ (join_with (text ",") (r ∷ rs) ++ text ":")) (token-HasNoBreak s h)
      (all-append _ (join_with (text ",") (r ∷ rs)) (text ":") (names-HasNoBreak (r ∷ rs) k) refl)

match_new-header_line :
    (s : Text) (ps : List Text) (rest : Text)
    → is_token s ≡ true
    → all is_token ps ≡ true
    → match_new (header_line s ps ++ rest)
      ≡ some (record { sender = some s; recipients = ps; legacy = false })
unfolding header_line
match_new-header_line s [] rest h k =
    rw (append_assoc s (text ":") rest) (match_new-broadcast s rest h)
match_new-header_line s (r ∷ rs) rest h k =
    rw
      (
        append_assoc s (text "->" ++ (join_with (text ",") (r ∷ rs) ++ text ":")) rest,
        append_assoc (join_with (text ",") (r ∷ rs)) (text ":") rest,
      )
      (match_new-directed s r rs rest h k)

-- A text that the new-shape pattern matches is not empty.
match_new-nil :
    (line : Text) {h : ParsedHeader} → match_new line ≡ some h → text_beq line [] ≡ false
unfolding match_new
match_new-nil [] e = cc
match_new-nil (c ∷ s) e = refl

pub parse-header_line :
    (s : Text) (ps : List Text) (rest : Text)
    → is_token s ≡ true
    → all is_token ps ≡ true
    → parse_header (header_line s ps ++ rest)
      ≡ some (record { sender = some s; recipients = ps; legacy = false })
unfolding parse_header
parse-header_line s ps rest h k =
    let found = match_new-header_line s ps (first_line_of rest) h k in
    rw (
      first_line_of-append (header_line s ps) rest (header_line-HasNoBreak s ps h k),
      match_new-nil (header_line s ps ++ first_line_of rest) found,
      found,
    )

check_recipients-ok : (rs : List Text) → check_recipients rs ≡ ok tt → all is_token rs ≡ true
unfolding check_recipients
check_recipients-ok [] h = refl
check_recipients-ok (r ∷ rs) h = ground (arith, check_recipients-ok rs)

pub format_header-ok :
    (s : Text) (ps : List Text) {line : Text}
    → format_header s ps ≡ ok line
    → (is_token s ≡ true) × (all is_token ps ≡ true) × (line ≡ header_line s ps)
unfolding format_header
format_header-ok s ps h = ground (arith, check_recipients-ok ps)

-- A header that `format_header` writes is read back by `parse_header` with the sender and the
-- recipients that it was given, whatever text follows the header.
pub parse-format_header :
    (sender : Text) (recipients : List Text) (line rest : Text)
    → format_header sender recipients ≡ ok line
    → parse_header (line ++ rest)
      ≡ some (record { sender = some sender; recipients = recipients; legacy = false })
parse-format_header s ps line rest h =
    let (token, tokens, e) = format_header-ok s ps h in
    rw e (parse-header_line s ps rest token tokens)
