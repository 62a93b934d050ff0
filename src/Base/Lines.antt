-- ===== src/Base/Lines.antt =====
-- Lines of a text, and prefixes.
use docker_claudebox.Base.Tests.{if◌then◌else◌, nat_beq}
use docker_claudebox.Base.Texts.{Text, split_on}
use Prim.Native.Nat.{ℕ}
use mathlib.Core.Bool.{Bool, ◌||◌}
use mathlib.Core.List.{List, [], ◌∷◌}
use mathlib.Core.Option.{Option, none, some}

-- What `.` does not match.
unfoldable pub is_line_end : ℕ → Bool
is_line_end c = nat_beq c 10 || (nat_beq c 13 || (nat_beq c 0x2028 || nat_beq c 0x2029))

-- One `\r` before the `\n` belongs to the separator.
unfoldable pub drop_return : Text → Text
drop_return [] = []
drop_return (c ∷ []) = if nat_beq c 13 then [] else c ∷ []
drop_return (c ∷ (d ∷ s)) = c ∷ drop_return (d ∷ s)

unfoldable pub drop_returns : List Text → List Text
drop_returns [] = []
drop_returns (p ∷ []) = p ∷ []
drop_returns (p ∷ (q ∷ ps)) = drop_return p ∷ drop_returns (q ∷ ps)

-- `text.split(/\r?\n/)`
unfoldable pub lines_of : Text → List Text
lines_of s = drop_returns (split_on 10 s)

-- `s.slice(p.length)`, when `s` begins with `p`.
unfoldable pub after_prefix : Text → Text → Option Text
after_prefix [] s = some s
after_prefix (c ∷ p) [] = none
after_prefix (c ∷ p) (d ∷ s) = if nat_beq c d then after_prefix p s else none
