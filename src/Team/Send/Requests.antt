-- ===== src/Team/Send/Requests.antt =====
-- Which requests a post makes, and what its outcome says of them.
use mathlib.Core.List.{append-nil, append_assoc}
use docker_claudebox.Files.{FileSystem, Outcome, ◌>>->◌, Done}
use docker_claudebox.Team.Post.{
  PostPlan, compose, show_only, send, PostError, SendTarget, comment_on, create_issue, plan_post,
}
use docker_claudebox.Team.Roster.{Roster}
use docker_claudebox.Team.Send.{
  Shell, PostOutcome, refused, composed, shown, not_staged, request_failed, posted, close_failed,
  closed, request_command, close_command, close_issue, after_target, after_request, cleaned, staged,
  temp_path, stage_dir, send_post, carry_out, run_post,
}
use docker_claudebox.Base.{
  Bool, Bool-cases, Dict, List, Option, Result, Text, [], ap, arith, err, false, inl, inr, nat_beq,
  nat_beq_iff, ok, refl, some, sym, trim, true, ℕ, ◌++◌, ◌∙◌, ◌∷◌, ◌≡◌, ◌≢◌,
}

-- A request, with the files as it found them and the exit code it got.
abbrev pub Request : Type 0
Request = Text × (Text → Option Text) × ℕ

-- The shell's calls are logged in order, the calls of the file system leave the log alone, and a
-- file that was written can be read.
pub record IsLogged {W : Type 0} (fs : FileSystem W) (sh : Shell W) (log : W → List Request)
    : Type 0 where
  pub run_capture_logs :
      (command : Text) (w : W)
      → log (sh.run_capture command w).1
        ≡ log w
          ++ ((command, (λ p. fs.read_text_or_undefined p w), (sh.run_capture command w).0.0) ∷ [])
  pub mkdir_recursive_silent : (p : Text) (w : W) → log (fs.mkdir_recursive p w).1 ≡ log w
  pub write_text_silent : (p c : Text) (w : W) → log (fs.write_text p c w).1 ≡ log w
  pub remove_file_silent : (p : Text) (w : W) → log (fs.remove_file p w).1 ≡ log w
  pub write_text_stores :
      (p c : Text) (u : Done) (w w₁ : W)
      → fs.write_text p c w ≡ (ok u, w₁)
      → fs.read_text_or_undefined p w₁ ≡ some c

-- The first request posts the message, from the staged file.
abbrev pub Posts : SendTarget → Text → Text → Text → Request → Type 0
Posts target repo message path request =
    (request.0 ≡ request_command target repo path) × (request.1 path ≡ some message)

abbrev pub One : SendTarget → Text → Text → Text → ℕ → List Request → Type 0
One target repo message path rc new =
    (request : Request) × (new ≡ request ∷ [])
    × Posts target repo message path request
    × (request.2 ≡ rc)

-- The second request closes the issue, once the first has succeeded.
abbrev pub Two : SendTarget → Text → Text → Text → ℕ → List Request → Type 0
Two target repo message path rc new =
    (n : ℕ) × (request : Request) × (files : Text → Option Text) × (target ≡ comment_on n true)
    × (new ≡ request ∷ (close_command n repo, files, rc) ∷ [])
    × Posts target repo message path request
    × (request.2 ≡ 0)

-- The requests that an outcome of a post goes with.
unfoldable pub Sent : SendTarget → Text → Text → Text → PostOutcome → List Request → Type 0
Sent target repo message path (refused e) new = ⊥
Sent target repo message path (composed s) new = ⊥
Sent target repo message path (shown s) new = ⊥
Sent target repo message path (not_staged reason) new = new ≡ []
Sent target repo message path (request_failed rc) new =
    (rc ≢ 0) × One target repo message path rc new
Sent target repo message path (posted t url) new =
    (t ≡ target) × ((n : ℕ) → target ≢ comment_on n true) × One target repo message path 0 new
Sent target repo message path (close_failed rc) new = (rc ≢ 0) × Two target repo message path rc new
Sent target repo message path (closed n url) new =
    (target ≡ comment_on n true) × Two target repo message path 0 new

nonzero : (rc : ℕ) → nat_beq rc 0 ≡ false → rc ≢ 0
nonzero rc h e = ground (arith, h, e)

zero_code : (rc : ℕ) → nat_beq rc 0 ≡ true → rc ≡ 0
zero_code rc h = (nat_beq_iff rc 0).0 h

module _ {W : Type 0} (fs : FileSystem W) (sh : Shell W) (log : W → List Request)
    (law : IsLogged fs sh log) (env : Dict Text) (home repo message path : Text) where
  -- From the state `w` on, the log has grown by what the outcome says.
  abbrev Ends : SendTarget → W → PostOutcome × W → Type 0
  Ends target w r =
      (new : List Request) × (log r.1 ≡ log w ++ new) × Sent target repo message path r.0 new

  cleaned-Ends :
      (target : SendTarget) (w : W) (r : PostOutcome × W)
      → Ends target w r
      → Ends target w (cleaned fs sh env home path r)
  cleaned-Ends target w (outcome, w₁) (new, grown, sent) =
      (new, law.remove_file_silent path w₁ ∙ grown, sent)

  closing-Ends :
      (n : ℕ) (url : Text) (w w₁ : W) (request : Request) (r : (ℕ × Text) × W)
      → log w₁ ≡ log w ++ (request ∷ [])
      → Posts (comment_on n true) repo message path request
      → request.2 ≡ 0
      → sh.run_capture (close_command n repo) w₁ ≡ r
      → Ends (comment_on n true) w (close_issue fs sh env home n repo url r)
  unfolding Sent
  closing-Ends n url w w₁ request ((rc, out), w₂) grown posts fine e =
      let files : Text → Option Text = λ p. fs.read_text_or_undefined p w₁ in
      let both : List Request = request ∷ (close_command n repo, files, rc) ∷ [] in
      let logged : log w₂ ≡ log w ++ both =
        ap (λ s. log s.1) (sym e)
        ∙ (law.run_capture_logs (close_command n repo) w₁
            ∙ (ap (λ s. log w₁ ++ ((close_command n repo, files, s.0.0) ∷ [])) e
                ∙ (ap (λ s. s ++ ((close_command n repo, files, rc) ∷ [])) grown
                    ∙ append_assoc (log w) (request ∷ [])
                        ((close_command n repo, files, rc) ∷ [])))) in
      elim (Bool-cases (nat_beq rc 0)) [
        | inl good ↦ rw good (
          both,
          logged,
          (
            refl,
            (
              n,
              request,
              files,
              refl,
              ap (λ (k : ℕ). request ∷ (close_command n repo, files, k) ∷ []) (zero_code rc good),
              posts,
              fine,
            ),
          ),
        )
        | inr bad ↦
            rw bad (both, logged, (nonzero rc bad, (n, request, files, refl, refl, posts, fine)))
      ]

  targeted-Ends :
      (target : SendTarget) (url : Text) (w w₁ : W) (request : Request)
      → log w₁ ≡ log w ++ (request ∷ [])
      → Posts target repo message path request
      → request.2 ≡ 0
      → Ends target w (after_target fs sh env home target repo url w₁)
  unfolding Sent
  targeted-Ends (create_issue title) url w w₁ request grown posts fine =
      (request ∷ [], grown, (refl, (λ n e. cc e), (request, refl, posts, fine)))
  targeted-Ends (comment_on n true) url w w₁ request grown posts fine =
      closing-Ends n url w w₁ request (sh.run_capture (close_command n repo) w₁) grown posts fine
        refl
  targeted-Ends (comment_on n false) url w w₁ request grown posts fine =
      (request ∷ [], grown, (refl, (λ k e. cc e), (request, refl, posts, fine)))

  requested-Ends :
      (target : SendTarget) (w w₁ : W) (r : (ℕ × Text) × W)
      → log w₁ ≡ log w
      → fs.read_text_or_undefined path w₁ ≡ some message
      → sh.run_capture (request_command target repo path) w₁ ≡ r
      → Ends target w (after_request fs sh env home target repo r)
  unfolding Sent
  requested-Ends target w w₁ ((rc, out), w₂) same stored e =
      let command = request_command target repo path in
      let files : Text → Option Text = λ p. fs.read_text_or_undefined p w₁ in
      let request : Request = (command, files, rc) in
      let posts : Posts target repo message path request = (refl, stored) in
      let logged : log w₂ ≡ log w ++ (request ∷ []) =
        ap (λ s. log s.1) (sym e)
        ∙ (law.run_capture_logs command w₁
            ∙ (ap (λ s. log w₁ ++ ((command, files, s.0.0) ∷ [])) e
                ∙ ap (λ s. s ++ (request ∷ [])) same)) in
      elim (Bool-cases (nat_beq rc 0)) [
        | inl good ↦
            rw good (targeted-Ends target (trim out) w w₂ request logged posts (zero_code rc good))
        | inr bad ↦ rw bad (request ∷ [], logged, (nonzero rc bad, (request, refl, posts, refl)))
      ]

  staged-Ends :
      (target : SendTarget) (w w₁ : W) (r : Outcome Done W)
      → log w₁ ≡ log w
      → fs.write_text path message w₁ ≡ r
      → Ends target w (staged fs sh env home target repo path r)
  unfolding Sent
  staged-Ends target w w₁ (err reason, w₂) same e =
      let silent = ap (λ s. log s.1) (sym e) ∙ (law.write_text_silent path message w₁ ∙ same) in
      ([], silent ∙ sym (append-nil (log w)), refl)
  staged-Ends target w w₁ (ok u, w₂) same e =
      let silent = ap (λ s. log s.1) (sym e) ∙ (law.write_text_silent path message w₁ ∙ same) in
      let stored = law.write_text_stores path message u w₁ w₂ e in
      cleaned-Ends target w _ (
        requested-Ends target w w₂ (sh.run_capture (request_command target repo path) w₂) silent
          stored refl)

  made_dir-Ends :
      (target : SendTarget) (w : W) (dir : Text) (r : Outcome Done W)
      → fs.mkdir_recursive dir w ≡ r
      → Ends target w
          (staged fs sh env home target repo path (r >>-> λ _ w₁. fs.write_text path message w₁))
  unfolding Sent ◌>>->◌
  made_dir-Ends target w dir (err reason, w₁) e =
      let silent = ap (λ s. log s.1) (sym e) ∙ law.mkdir_recursive_silent dir w in
      ([], silent ∙ sym (append-nil (log w)), refl)
  made_dir-Ends target w dir (ok u, w₁) e =
      let silent = ap (λ s. log s.1) (sym e) ∙ law.mkdir_recursive_silent dir w in
      staged-Ends target w w₁ (fs.write_text path message w₁) silent refl

-- What a plan makes of the log, with the outcome.
abbrev pub CarriedOut : Result PostError PostPlan → Text → PostOutcome → List Request → Type 0
CarriedOut (err e) path outcome new = (outcome ≡ refused e) × (new ≡ [])
CarriedOut (ok (compose message)) path outcome new = (outcome ≡ composed message) × (new ≡ [])
CarriedOut (ok (show_only target repo message)) path outcome new =
    (outcome ≡ shown message) × (new ≡ [])
CarriedOut (ok (send target repo message)) path outcome new =
    Sent target repo message path outcome new

carry_out-CarriedOut :
    {W : Type 0} (fs : FileSystem W) (sh : Shell W) (log : W → List Request)
    (law : IsLogged fs sh log) (env : Dict Text) (home : Text) (plan : Result PostError PostPlan)
    (w : W)
    → (new : List Request) × (log (carry_out fs sh env home plan w).1 ≡ log w ++ new)
      × CarriedOut plan (temp_path fs sh env home w) (carry_out fs sh env home plan w).0 new
unfolding send_post
carry_out-CarriedOut fs sh log law env home (err e) w = ([], sym (append-nil (log w)), (refl, refl))
carry_out-CarriedOut fs sh log law env home (ok (compose message)) w =
    ([], sym (append-nil (log w)), (refl, refl))
carry_out-CarriedOut fs sh log law env home (ok (show_only target repo message)) w =
    ([], sym (append-nil (log w)), (refl, refl))
carry_out-CarriedOut fs sh log law env home (ok (send target repo message)) w =
    let path = temp_path fs sh env home w in
    let dir = stage_dir fs sh env home w in
    made_dir-Ends fs sh log law env home repo message path target w dir (fs.mkdir_recursive dir w)
      refl

-- A post makes exactly these requests. Where it is refused, printed, shown or cannot be staged, it
-- makes none. Otherwise the first request is the one for the planned target, made while the staged
-- file holds the planned message; an outcome that reports success says that it exited with 0, and
-- that a comment with `--close` was followed by the request that closes its issue, which exited
-- with 0 too. That request is made only after the first has succeeded; a failure of either is
-- reported with its exit code, which is not 0.
pub run_post-CarriedOut :
    {W : Type 0} (fs : FileSystem W) (sh : Shell W) (log : W → List Request)
    → IsLogged fs sh log
    → (env : Dict Text) (home : Text) (positive_integer : Text → Option ℕ)
      (has_alphanumeric : Text → Bool) (args : List Text) (self : Text) (roster : Roster)
      (body : Text) (w : W)
    → (new : List Request) × (log
          (run_post fs sh env home positive_integer has_alphanumeric args self roster body w).1
        ≡ log w ++ new)
      × CarriedOut
          (plan_post positive_integer has_alphanumeric args self roster body)
          (temp_path fs sh env home w)
          (run_post fs sh env home positive_integer has_alphanumeric args self roster body w).0
          new
unfolding run_post
run_post-CarriedOut fs sh log law env home pi ha args self roster body w =
    carry_out-CarriedOut fs sh log law env home (plan_post pi ha args self roster body) w
