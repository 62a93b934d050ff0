-- ===== src/Watch/Header/Delivery.antt =====
-- Which agents a posted message reaches.
use docker_claudebox.Watch.Header.{parse_header, is_sent_by, surfaces_for_agent, format_header}
use docker_claudebox.Watch.Header.RoundTrip.{parse-format_header}
use docker_claudebox.Base.{
  List, Text, [], arith, contains, eq_iff, false, ok, some, text_eq, true, ◌++◌, ◌↔◌, ◌∷◌, ◌≡◌, ◌≢◌,
}

-- There are no recipients, or the agent is one of them.
abbrev pub IsAddressed : List Text → Text → Type 0
IsAddressed [] self = Unit
IsAddressed (r ∷ rs) self = contains (r ∷ rs) self ≡ true

surfaces-new_iff :
    (sender : Text) (recipients : List Text) (self : Text)
    → (surfaces_for_agent
          (some (record { sender = some sender; recipients = recipients; legacy = false }))
          self
        ≡ true)
      ↔ ((sender ≢ self) × IsAddressed recipients self)
unfolding surfaces_for_agent is_sent_by
surfaces-new_iff sender [] self = ground (arith, eq_iff sender self)
surfaces-new_iff sender (r ∷ rs) self = ground (arith, eq_iff sender self)

-- A message posted with a header surfaces for exactly the agents other than its sender that are
-- among its recipients, and for all others than the sender when it names no recipient.
pub post-surfaces_iff :
    (sender : Text) (recipients : List Text) (line body self : Text)
    → format_header sender recipients ≡ ok line
    → (surfaces_for_agent (parse_header (line ++ body)) self ≡ true)
      ↔ ((sender ≢ self) × IsAddressed recipients self)
post-surfaces_iff sender recipients line body self h =
    rw (parse-format_header sender recipients line body h) (surfaces-new_iff sender recipients self)
