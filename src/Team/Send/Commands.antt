-- ===== src/Team/Send/Commands.antt =====
-- The commands of a post, as the shell reads them.
use mathlib.Core.List.{append-nil}
use docker_claudebox.Team.Shell.{
  plain, read_words, shell_words, put_all, is_plain, shell_quote, shell_quote-words, plain_words,
}
use docker_claudebox.Team.Send.{comment_command, create_command, request_command}
use docker_claudebox.Team.Post.{SendTarget, comment_on, create_issue}
use docker_claudebox.Base.{
  List, Text, [], all, all_weaken, ap, arith, digits-show_number, is_digit, is_letter, is_name_char,
  refl, show_number, some, sym, text, true, ℕ, ◌++◌, ◌∙◌, ◌∷◌, ◌≡◌,
}

digits_plain : (s : Text) → all is_digit s ≡ true → all is_plain s ≡ true
unfolding is_plain is_name_char
digits_plain s h = all_weaken is_digit is_plain s (λ c d. ground (arith, d)) h

put_all-some : (s w : Text) (ws : List Text) → put_all s (some (w, ws)) ≡ some (s ++ w, ws)
put_all-some [] w ws = refl
put_all-some (c ∷ s) w ws = rw (put_all-some s w ws) refl

-- A quoted text before a space or the end is one word.
quoted_then :
    (s t : Text) (ws : List Text)
    → read_words plain t ≡ some ([], ws)
    → read_words plain (shell_quote s ++ t) ≡ some (s, ws)
quoted_then s t ws h =
    shell_quote-words s t
    ∙ (ap (put_all s) h ∙ (put_all-some s [] ws ∙ ap (λ w. some (w, ws)) (append-nil s)))

quoted_last : (s : Text) → read_words plain (shell_quote s) ≡ some (s, [])
unfolding read_words
quoted_last s = ap (read_words plain) (sym (append-nil (shell_quote s))) ∙ quoted_then s [] [] refl

number_then :
    (n : ℕ) (t : Text) (ws : List Text)
    → read_words plain t ≡ some ([], ws)
    → read_words plain (show_number n ++ t) ≡ some (show_number n, ws)
number_then n t ws h =
    let s = show_number n in
    plain_words s t (digits_plain s (digits-show_number n))
    ∙ (ap (put_all s) h ∙ (put_all-some s [] ws ∙ ap (λ w. some (w, ws)) (append-nil s)))

-- The words of the request for a target.
abbrev pub words_for : SendTarget → Text → Text → List Text
words_for (comment_on n close) repo path =
    text "gh"
    ∷ text "issue"
    ∷ text "comment"
    ∷ show_number n
    ∷ text "--repo"
    ∷ repo
    ∷ text "--body-file"
    ∷ path
    ∷ []
words_for (create_issue title) repo path =
    text "gh"
    ∷ text "issue"
    ∷ text "create"
    ∷ text "--repo"
    ∷ repo
    ∷ text "--title"
    ∷ title
    ∷ text "--body-file"
    ∷ path
    ∷ []

body_file :
    (path : Text)
    → read_words plain (text " --body-file " ++ shell_quote path)
      ≡ some ([], text "--body-file" ∷ path ∷ [])
unfolding read_words is_plain is_name_char is_letter is_digit
body_file path = rw (quoted_last path) refl

-- Whatever characters the repository, the title and the path have, the shell reads the request as a
-- call of `gh` with exactly the arguments meant: none of them is split, dropped or run.
pub request_command-words :
    (target : SendTarget) (repo path : Text)
    → shell_words (request_command target repo path) ≡ some (words_for target repo path)
unfolding request_command comment_command create_command shell_words read_words is_plain
    is_name_char is_letter is_digit
request_command-words (comment_on n close) repo path =
    let at_repo = quoted_then repo (text " --body-file " ++ shell_quote path) _ (body_file path) in
    let after_number : read_words plain
          (text " --repo " ++ (shell_quote repo ++ (text " --body-file " ++ shell_quote path)))
        ≡ some ([], text "--repo" ∷ repo ∷ text "--body-file" ∷ path ∷ []) =
      rw at_repo refl in
    rw
      (number_then n
        (text " --repo " ++ (shell_quote repo ++ (text " --body-file " ++ shell_quote path))) _
        after_number)
      refl
request_command-words (create_issue title) repo path =
    let at_title =
      quoted_then title (text " --body-file " ++ shell_quote path) _ (body_file path) in
    let after_repo : read_words plain
          (text " --title " ++ (shell_quote title ++ (text " --body-file " ++ shell_quote path)))
        ≡ some ([], text "--title" ∷ title ∷ text "--body-file" ∷ path ∷ []) =
      rw at_title refl in
    rw
      (quoted_then repo
        (text " --title " ++ (shell_quote title ++ (text " --body-file " ++ shell_quote path))) _
        after_repo)
      refl
