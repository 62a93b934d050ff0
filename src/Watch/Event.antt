-- ===== src/Watch/Event.antt =====
-- services/WatcherEvent.ts: the event that every source emits, and its content hash.
use Prim.Native.Nat.{bit_xor, ◌^◌}
use docker_claudebox.Watch.Header.{ParsedHeader}
use docker_claudebox.Base.{
  Option, Text, [], if◌then◌else◌, ltb, none, some, suc, text, zero, ℕ, ◌%◌, ◌*◌, ◌++◌, ◌+◌, ◌-◌,
  ◌/◌, ◌∷◌,
}

pub data WatcherSource : Type 0 where
  github consult bug_report a2a : WatcherSource

pub data WatcherEventKind : Type 0 where
  comment state_change : WatcherEventKind

pub record WatcherEvent : Type 0 where
  pub source : WatcherSource
  pub kind : WatcherEventKind
  pub ref : Text
  pub header : Option ParsedHeader
  pub summary : Text
  pub event_hash : Text
  pub cursor : Text
  pub observed_at : Text

abbrev pub source_name : WatcherSource → Text
source_name github = text "github"
source_name consult = text "consult"
source_name bug_report = text "bug-report"
source_name a2a = text "a2a"

abbrev pub kind_name : WatcherEventKind → Text
kind_name comment = text "comment"
kind_name state_change = text "state-change"

-- The separator is the character with code 0.
unfoldable pub hash_payload : WatcherSource → Text → WatcherEventKind → Text → Text
hash_payload source ref kind salient =
    source_name source ++ (0 ∷ (kind_name kind ++ (0 ∷ (ref ++ (0 ∷ salient)))))

-- The loop of `fnv1aFallback` over 64-bit words; every `&` with the mask is a remainder.
unfoldable pub fnv1a_from : ℕ → Text → ℕ
fnv1a_from h [] = h
fnv1a_from h (c ∷ s) = fnv1a_from ((bit_xor h c % 2 ^ 64) * 0x100000001b3 % 2 ^ 64) s

unfoldable pub fnv1a : Text → ℕ
unfolding fnv1a_from
fnv1a s = fnv1a_from 0xcbf29ce484222325 s

hex_digit : ℕ → ℕ
hex_digit d = if ltb d 10 then b'0' + d else b'a' + (d - 10)

-- The last `n` hexadecimal digits: `toString(16).padStart(16, "0")` for n = 16 and a 64-bit word.
unfoldable pub hex_padded : ℕ → ℕ → Text
unfolding hex_digit
hex_padded zero w = []
hex_padded (suc n) w = hex_padded n (w / 16) ++ (hex_digit (w % 16) ∷ [])

-- `Bun.hash` is the runtime's; where it is absent the fallback runs.
unfoldable pub event_hash_of :
    Option (Text → ℕ) → WatcherSource → Text → WatcherEventKind → Text → Text
unfolding hash_payload fnv1a hex_padded
event_hash_of (some bun_hash) source ref kind salient =
    hex_padded 16 (bun_hash (hash_payload source ref kind salient))
event_hash_of none source ref kind salient =
    hex_padded 16 (fnv1a (hash_payload source ref kind salient))
