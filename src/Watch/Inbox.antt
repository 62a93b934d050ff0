-- ===== src/Watch/Inbox.antt =====
-- services/InboxSink.ts: the names of the inbox's files, the links to messages, and the sink.
use docker_claudebox.Files.{FileSystem, Outcome, Done}
use docker_claudebox.Watch.Event.{WatcherEvent, source_name, kind_name}
use docker_claudebox.Watch.Header.{ParsedHeader}
use docker_claudebox.Base.{
  Bool, List, Option, Text, [], after_prefix, drop_run, err, false, if◌then◌else◌, is_digit,
  nat_beq, none, not, ok, some, take_run, text, text_eq, true, ◌&&◌, ◌++◌, ◌==◌, ◌||◌, ◌∷◌,
}

unfoldable pub inbox_path_for : Text → Text → Text
inbox_path_for root self = root ++ (text "/inbox/" ++ (self ++ text ".jsonl"))

unfoldable pub pidfile_for : Text → Text
pidfile_for inbox = inbox ++ text ".pid"

unfoldable pub logfile_for : Text → Text
logfile_for inbox = inbox ++ text ".log"

unfoldable pub session_cursors_for : Text → Text
session_cursors_for inbox = inbox ++ text ".session-cursors.json"

pub record InboxRecord : Type 0 where
  pub observed_at : Text
  pub source : Text
  pub kind : Text
  pub ref : Text
  pub sender : Text
  pub recipients : List Text
  pub summary : Text
  pub fingerprint : Text
  pub url : Option Text

-- A run of digits that is not empty, and what follows it.
abbrev pub digits_then : Text → Option (Text × Text)
digits_then s =
    let digits = take_run is_digit s in
    if digits == [] then none else some (digits, drop_run is_digit s)

abbrev all_digits : Option Text → Option Text
all_digits none = none
all_digits (some s) = if (take_run is_digit s == s) && not (s == []) then some s else none

abbrev url_for : Text → Text → Option Text → Option Text
url_for base kind (some id) = some (base ++ (text "#issuecomment-" ++ id))
url_for base kind none = if (kind == text "body") || (kind == text "head") then some base else none

abbrev url_of_kind : Text → Option (Text × Text) → Option Text
url_of_kind repo none = none
url_of_kind repo (some (issue, [])) = none
url_of_kind repo (some (issue, c ∷ kind)) =
    let base = text "https://github.com/" ++ (repo ++ (text "/issues/" ++ issue)) in
    if nat_beq c b'#'
    then url_for base kind (all_digits (after_prefix (text "comment-") kind))
    else none

abbrev url_of_issue : Text → Option Text → Option Text
url_of_issue repo none = none
url_of_issue repo (some s) = url_of_kind repo (digits_then s)

-- `^github:#(\d+)#(body|comment-(\d+)|head)$`
unfoldable pub github_url_from_ref : Text → Text → Option Text
github_url_from_ref ref repo = url_of_issue repo (after_prefix (text "github:#") ref)

abbrev sender_or : Option Text → Text
sender_or none = text "<legacy>"
sender_or (some s) = s

abbrev sender_of : Option ParsedHeader → Text
sender_of none = text "<legacy>"
sender_of (some h) = sender_or h.sender

abbrev recipients_in : Option ParsedHeader → List Text
recipients_in none = []
recipients_in (some h) = h.recipients

-- The record that `formatInboxLine` writes as JSON.
unfoldable pub inbox_record : WatcherEvent → Text → InboxRecord
unfolding github_url_from_ref
inbox_record event repo = record {
  observed_at = event.observed_at;
  source = source_name event.source;
  kind = kind_name event.kind;
  ref = event.ref;
  sender = sender_of event.header;
  recipients = recipients_in event.header;
  summary = event.summary;
  fingerprint = event.event_hash;
  url = github_url_from_ref event.ref repo;
}

module _ {W : Type 0} (fs : FileSystem W) (stringify : InboxRecord → Text) (inbox repo : Text) where
  abbrev accepted : Outcome Done W → Bool × W
  accepted (ok _, w) = (true, w)
  accepted (err reason, w) = (false, w)

  -- `onEvent`: an append that throws refuses the event.
  unfoldable pub deliver_to_inbox : WatcherEvent → W → Bool × W
  unfolding inbox_record
  deliver_to_inbox event w =
      accepted (fs.append_text inbox (stringify (inbox_record event repo) ++ text "\n") w)
