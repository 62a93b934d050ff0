-- ===== src/Domain/Version/Order.antt =====
-- The comparison of versions, and the order on (major, minor, patch).
use docker_claudebox.Domain.Version.{
  Version, same, Comparison, gt, lt, eq, compare_to, skew_severity,
}
use docker_claudebox.Base.{arith, ◌<◌, ◌↔◌, ◌≡◌, ◌⊎◌}

-- The components agree; `raw` may differ.
pub record SameParts (a b : Version) : Type 0 where
  pub major : a.major ≡ b.major
  pub minor : a.minor ≡ b.minor
  pub patch : a.patch ≡ b.patch

-- The lexicographic order.
abbrev pub IsBefore : Version → Version → Type 0
IsBefore a b =
    (a.major < b.major)
    ⊎ (((a.major ≡ b.major) × (a.minor < b.minor))
        ⊎ ((a.major ≡ b.major) × (a.minor ≡ b.minor) × (a.patch < b.patch)))

-- The comparison says `lt` exactly when the first version is before the second in the
-- lexicographic order, `gt` exactly when it is behind it, and `eq` exactly when they have the same
-- components.
pub compare_to_iff :
    (a b : Version)
    → ((compare_to a b ≡ lt) ↔ IsBefore a b)
      × ((compare_to a b ≡ gt) ↔ IsBefore b a)
      × ((compare_to a b ≡ eq) ↔ SameParts a b)
unfolding compare_to
compare_to_iff a b = (ground arith, ground arith, ground arith)

abbrev pub flip : Comparison → Comparison
flip lt = gt
flip gt = lt
flip eq = eq

-- Comparing the other way round gives the opposite answer, and the severity is the same both ways;
-- the severity is `same` exactly when the comparison says `eq`.
pub compare_to_symmetry :
    (a b : Version)
    → (compare_to b a ≡ flip (compare_to a b))
      × (skew_severity b a ≡ skew_severity a b)
      × ((skew_severity a b ≡ same) ↔ (compare_to a b ≡ eq))
unfolding compare_to skew_severity
compare_to_symmetry a b = (ground arith, ground arith, ground arith)

-- The order is transitive.
pub compare_to_trans :
    (a b c : Version) → compare_to a b ≡ lt → compare_to b c ≡ lt → compare_to a c ≡ lt
unfolding compare_to
compare_to_trans a b c h k = ground arith
