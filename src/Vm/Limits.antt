-- ===== src/Vm/Limits.antt =====
-- services/VmLimits.ts, and what of domain/units.ts and infra/Colima.ts the limits are read with.
use docker_claudebox.Base.{
  Bool, List, Option, Text, [], false, if◌then◌else◌, is_digit, keep, leb, length, nat_beq, none,
  not, read_number, some, starts_with, take_run, text, text_beq, text_eq, trim, ℕ, ◌&&◌, ◌==◌, ◌||◌,
  ◌∷◌,
}

pub data VmLimitVerdict : Type 0 where
  within warn deny : VmLimitVerdict

-- All numbers that come here are finite.
unfoldable pub decide_vm_limit : ℕ → ℕ → ℕ → VmLimitVerdict
decide_vm_limit count warn_max hard_max =
    if leb hard_max count then deny else if leb warn_max count then warn else within

abbrev pub baked_warn_max : ℕ
baked_warn_max = 3

abbrev pub baked_hard_max : ℕ
baked_hard_max = 5

-- `Math.floor(cbNum(s))`: the digits in front, absent when there are none and `cbNum` throws.
unfoldable pub floor_of_num : Text → Option ℕ
floor_of_num s =
    let digits = take_run is_digit (trim s) in
    if digits == [] then none else some (read_number digits)

unfoldable pub int_or : Option Text → ℕ → ℕ
int_or none fallback = fallback
int_or (some s) fallback = elim (floor_of_num s) [ none ↦ fallback | some n ↦ n ]

pub record VmInfo : Type 0 where
  pub name : Text
  pub status : Text

-- The running machines of projects.
unfoldable pub count_running_project_vms : List VmInfo → ℕ
count_running_project_vms vms = length (
    keep
      (λ v.
        starts_with (text "cb-") v.name
        && (not (v.name == text "cb-infra") && v.status == text "Running"))
      vms)

-- `/^cb-.+/`
unfoldable pub is_cb_profile : Text → Bool
is_cb_profile (c ∷ (b ∷ (d ∷ (x ∷ s)))) =
    text_beq (c ∷ b ∷ d ∷ []) (text "cb-")
    && not (nat_beq x 10 || (nat_beq x 13 || (nat_beq x 0x2028 || nat_beq x 0x2029)))
is_cb_profile _ = false
