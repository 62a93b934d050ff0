-- ===== src/Watch/Persist/RoundTrip.antt =====
-- Loading a state that was saved.
use mathlib.Core.List.{append-nil, append_assoc}
use docker_claudebox.Files.{FileSystem, IsLawful, Outcome, ◌>>->◌, Done}
use docker_claudebox.Watch.Event.{WatcherSource}
use docker_claudebox.Watch.Store.{WatcherStoreState}
use docker_claudebox.Watch.Persist.{
  Json, number_json, elements_of, fields_of, strings_of, counts_of, put_count, attempts_field,
  counts_in, field_of, decode_state, encode_state, state_path, load_state, save_state,
}
use docker_claudebox.Base.{
  Bool-cases, Dict, List, Option, Text, [], ap, arith, eq_iff, eq_refl, err, false, inl, inr,
  insert, length, lookup, lookup-insert, ltb, none, ok, refl, some, sym, take, take_all, text,
  text_eq, trim, true, ℕ, ◌++◌, ◌<◌, ◌==◌, ◌∙◌, ◌∷◌, ◌≡◌, ◌≢◌, ◌≤◌,
}

-- Every count is positive, and no key is there twice.
abbrev pub IsCounts : Dict ℕ → Type 0
IsCounts [] = Unit
IsCounts (entry ∷ d) = (0 < entry.1) × (lookup entry.0 d ≡ none) × IsCounts d

insert_new : (k : Text) (n : ℕ) (d : Dict ℕ) → lookup k d ≡ none → insert k n d ≡ d ++ ((k, n) ∷ [])
unfolding insert lookup
insert_new k n [] h = refl
insert_new k n (entry ∷ d) h = elim (Bool-cases (entry.0 == k)) [
  | inl same ↦ cc (h, same)
  | inr other ↦
      let later : lookup k d ≡ none = sym (rw other refl) ∙ h in
      rw other (ap (λ (r : Dict ℕ). entry ∷ r) (insert_new k n d later))
]

strings-elements_of : (ts : List Text) → strings_of (elements_of ts) ≡ ts
strings-elements_of [] = refl
strings-elements_of (s ∷ ts) = ap (λ (r : List Text). s ∷ r) (strings-elements_of ts)

counts-fields_of :
    (d acc : Dict ℕ)
    → IsCounts d
    → ((k : Text) (n : ℕ) → lookup k d ≡ some n → lookup k acc ≡ none)
    → counts_of (fields_of d) acc ≡ acc ++ d
unfolding lookup
counts-fields_of [] acc h apart = sym (append-nil acc)
counts-fields_of (entry ∷ d) acc (positive, fresh, rest) apart =
    let (k, n) = entry in
    let absent : lookup k acc ≡ none = apart k n (rw (eq_refl k) refl) in
    let new : insert k n acc ≡ acc ++ ((k, n) ∷ []) = insert_new k n acc absent in
    let later : counts_of (fields_of d) (insert k n acc) ≡ insert k n acc ++ d =
      counts-fields_of d (insert k n acc) rest (λ j m found. elim (Bool-cases (k == j)) [
        | inl same ↦ cc (fresh, found, (eq_iff k j).0 same)
        | inr other ↦ lookup-insert k j n acc ∙ rw other (apart j m (rw other found))
      ]) in
    let counts : ltb 0 n ≡ true = ground (arith, positive) in
    let put : put_count k (number_json n) acc ≡ insert k n acc = rw counts refl in
    ap (counts_of (fields_of d)) put
    ∙ (later ∙ (ap (λ r. r ++ d) new ∙ append_assoc acc ((k, n) ∷ []) d))

counts-attempts_field :
    (d : Dict ℕ) → IsCounts d → counts_in (field_of (text "attempts") (attempts_field d)) ≡ d
unfolding field_of lookup
counts-attempts_field [] h = refl
counts-attempts_field (entry ∷ d) h = counts-fields_of (entry ∷ d) [] h (λ k n e. refl)

-- The state fits the ring, and its counts are positive and under different keys.
pub record IsStorable (cap : ℕ) (s : WatcherStoreState) : Type 0 where
  pub fits : length s.delivered ≤ cap
  pub counts : IsCounts s.attempts

decode-encode_state :
    (cap : ℕ) (s : WatcherStoreState)
    → IsStorable cap s
    → decode_state cap (some (encode_state cap s)) ≡ s
unfolding decode_state encode_state field_of
decode-encode_state cap s h =
    let all_kept : take cap s.delivered ≡ s.delivered = take_all cap s.delivered h.fits in
    let read : take cap (strings_of (elements_of (take cap s.delivered))) ≡ s.delivered =
      ap (take cap) (strings-elements_of (take cap s.delivered))
      ∙ (ap (take cap) all_kept ∙ all_kept) in
    let counts = counts-attempts_field s.attempts h.counts in
    λ i. record { cursor = s.cursor; delivered = read i; attempts = counts i }

saved_text :
    {W : Type 0} (fs : FileSystem W) (law : IsLawful fs) (r : Outcome Done W) (p c : Text)
    (u : Done) (w₁ : W)
    → (r >>-> λ _ w. fs.write_text_atomic p c w) ≡ (ok u, w₁)
    → fs.read_text_or_undefined p w₁ ≡ some c
unfolding ◌>>->◌
saved_text fs law (err thrown, w) p c u w₁ h = cc (ap (λ s. s.0) h)
saved_text fs law (ok _, w) p c u w₁ h = law.write_text_atomic_stores p c u w w₁ h

-- A state that was saved is loaded again as it was: the same cursor, the same delivered hashes in
-- their order and the same retry counts; provided that the hashes fit the ring, that the counts are
-- positive and under different keys, and that parsing gives back the value that was made a text of,
-- which is not blank.
pub load-save_state :
    {W : Type 0} (fs : FileSystem W)
    → IsLawful fs
    → (parse_json : Text → Option Json) (stringify : Json → Text) (base : Text)
      (source : WatcherSource) (cap : ℕ) (s : WatcherStoreState)
    → parse_json (stringify (encode_state cap s)) ≡ some (encode_state cap s)
    → trim (stringify (encode_state cap s)) ≢ []
    → IsStorable cap s
    → (u : Done) (w w₁ : W) → save_state fs parse_json stringify base source cap s w ≡ (ok u, w₁)
    → load_state fs parse_json stringify base source cap w₁ ≡ s
unfolding load_state save_state
load-save_state fs law parse stringify base source cap s back visible h u w w₁ saved =
    let path = state_path fs parse stringify base source cap in
    let json = encode_state cap s in
    let read = saved_text fs law (fs.mkdir_recursive base w) path (stringify json) u w₁ saved in
    let seen : (trim (stringify json) == []) ≡ false =
      ground (arith, visible, eq_iff (trim (stringify json)) []) in
    rw read (rw seen (rw back (decode-encode_state cap s h)))
