-- ===== src/Watch/Persist.antt =====
-- services/WatcherStore.ts, load and save: the watcher's state as a file of JSON.
pub mod RoundTrip
use docker_claudebox.Files.{FileSystem, Outcome, ◌>>->◌, Done}
use docker_claudebox.Watch.Event.{WatcherSource, source_name}
use docker_claudebox.Watch.Store.{WatcherStoreState, empty_state}
use docker_claudebox.Base.{
  Bool, Dict, List, Option, Text, [], if◌then◌else◌, insert, ltb, none, show_number, some, suc,
  take, text, text_eq, trim, ℕ, ◌++◌, ◌==◌, ◌∷◌,
}

-- A value of JSON whose numbers are natural.
mutual
  pub data Json : Type 0 where
    null_json : Json
    bool_json : Bool → Json
    number_json : ℕ → Json
    string_json : Text → Json
    array_json : Elements → Json
    object_json : Fields → Json

  pub data Elements : Type 0 where
    no_elements : Elements
    element : Json → Elements → Elements

  pub data Fields : Type 0 where
    no_fields : Fields
    field : Text → Json → Fields → Fields

unfoldable pub field_of : Text → Fields → Option Json
field_of key no_fields = none
field_of key (field k v fields) = if k == key then some v else field_of key fields

abbrev pub text_in : Option Json → Text
text_in (some (string_json s)) = s
text_in _ = []

abbrev put_text : Json → List Text → List Text
put_text (string_json s) ts = s ∷ ts
put_text _ ts = ts

abbrev pub strings_of : Elements → List Text
strings_of no_elements = []
strings_of (element v vs) = put_text v (strings_of vs)

abbrev pub strings_in : Option Json → List Text
strings_in (some (array_json vs)) = strings_of vs
strings_in _ = []

-- `attempts[k] = v` for a positive number.
abbrev pub put_count : Text → Json → Dict ℕ → Dict ℕ
put_count k (number_json n) d = if ltb 0 n then insert k n d else d
put_count k _ d = d

abbrev pub counts_of : Fields → Dict ℕ → Dict ℕ
counts_of no_fields d = d
counts_of (field k v fields) d = counts_of fields (put_count k v d)

-- The entries of an array are under its indices.
abbrev pub counts_at : ℕ → Elements → Dict ℕ → Dict ℕ
counts_at i no_elements d = d
counts_at i (element v vs) d = counts_at (suc i) vs (put_count (show_number i) v d)

abbrev pub counts_in : Option Json → Dict ℕ
counts_in (some (object_json fields)) = counts_of fields []
counts_in (some (array_json vs)) = counts_at 0 vs []
counts_in _ = []

-- A value that is no object has none of the fields; null throws, and is caught.
unfoldable pub decode_state : ℕ → Option Json → WatcherStoreState
unfolding field_of
decode_state cap (some (object_json fields)) = record {
  cursor = text_in (field_of (text "cursor") fields);
  delivered = take cap (strings_in (field_of (text "delivered") fields));
  attempts = counts_in (field_of (text "attempts") fields);
}
decode_state cap _ = empty_state

abbrev pub elements_of : List Text → Elements
elements_of [] = no_elements
elements_of (s ∷ ts) = element (string_json s) (elements_of ts)

abbrev pub fields_of : Dict ℕ → Fields
fields_of [] = no_fields
fields_of (entry ∷ d) = field entry.0 (number_json entry.1) (fields_of d)

-- `attempts` is left out where it is empty.
abbrev pub attempts_field : Dict ℕ → Fields
attempts_field [] = no_fields
attempts_field (entry ∷ d) = field (text "attempts") (object_json (fields_of (entry ∷ d))) no_fields

unfoldable pub encode_state : ℕ → WatcherStoreState → Json
encode_state cap s = object_json (
    field (text "cursor") (string_json s.cursor) (
      field (text "delivered") (array_json (elements_of (take cap s.delivered)))
        (attempts_field s.attempts)))

-- `JSON.parse`, which may throw, and `JSON.stringify`.
module _ {W : Type 0} (fs : FileSystem W) (parse_json : Text → Option Json)
    (stringify : Json → Text) (base : Text) (source : WatcherSource) (cap : ℕ) where
  unfoldable pub state_path : Text
  state_path = base ++ (text "/" ++ (source_name source ++ text ".state.json"))

  abbrev pub state_in : Option Text → WatcherStoreState
  state_in none = empty_state
  state_in (some s) = if trim s == [] then empty_state else decode_state cap (parse_json s)

  unfoldable pub load_state : W → WatcherStoreState
  unfolding decode_state state_path
  load_state w = state_in (fs.read_text_or_undefined state_path w)

  unfoldable pub save_state : WatcherStoreState → W → Outcome Done W
  unfolding encode_state state_path
  save_state s w = fs.mkdir_recursive base w >>-> λ _ w₁.
      fs.write_text_atomic state_path (stringify (encode_state cap s)) w₁
