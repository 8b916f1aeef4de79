-- ===== src/Se.antt =====
-- kernel/se/init.c and kernel/include/se.h: access tokens. The mask of default privileges is set and
-- read nowhere.
use ntx_preview.Base.{
  ℕ, ◌-◌, ◌^◌, ◌<◌, ◌≤◌, ◌≡◌, ◌≢◌, ◌∙◌, Bool, true, not, ◌||◌, ◌&&◌, Option, none, some, arith,
  bit_and, if◌then◌else◌, ◌!=◌, ltb, Status, success, already_initialized, invalid_parameter,
  access_denied,
}
use native.Mathlib.Nat.{mod-eq_of_lt}
use ntx_preview.Base.Bits.{Subset, bit_and-eq_iff, bit_and-eq_left_iff, bit_and-low}

abbrev pub integrity_medium : ℕ
integrity_medium = 2

abbrev pub integrity_high : ℕ
integrity_high = 3

-- `SE_ACCESS_TOKEN`
pub record AccessToken : Type 0 where
  pub subject_id : ℕ
  pub privilege_mask : ℕ
  pub integrity_level : ℕ

-- The globals of init.c.
pub record Se : Type 0 where
  pub ready : Bool
  pub default_privilege_mask : ℕ

-- `SeInitialize`
unfoldable pub initialize_se : Se → Status × Se
initialize_se se =
    if se.ready
    then (already_initialized, se)
    else (success, record { ready = true; default_privilege_mask = 15 })

-- `SeCreateKernelToken`; `out` is whether the result pointer is not NULL.
unfoldable pub create_kernel_token : Bool → Se → Status × Option AccessToken
create_kernel_token out se = if not out || not se.ready then (invalid_parameter, none) else (
  success,
  some (record { subject_id = 0; privilege_mask = 2 ^ 32 - 1; integrity_level = integrity_high }),
)

-- `SeAccessCheck`
unfoldable pub access_check : Option AccessToken → ℕ → Se → Status
access_check none required se = invalid_parameter
access_check (some token) required se =
    if not se.ready
    then invalid_parameter
    else if bit_and token.privilege_mask required != required
    then access_denied
    else if ltb token.integrity_level integrity_medium && required != 0
    then access_denied
    else success

-- A token that passes a check has every right that was asked for, and is of medium integrity at least
-- if any was.
pub access_check-Subset :
    (token : AccessToken) (required : ℕ) (se : Se)
    → access_check (some token) required se ≡ success
    → Subset required token.privilege_mask
      × (required ≢ 0 → integrity_medium ≤ token.integrity_level)
unfolding access_check
access_check-Subset token required se ok =
    let covered : bit_and token.privilege_mask required ≡ required = ground (arith, ok) in
    ((bit_and-eq_iff token.privilege_mask required).0 covered, ground (arith, ok))

-- The kernel's token passes every check of a mask of 32 bits.
pub create_kernel_token-access_check :
    (token : AccessToken) (required : ℕ) (se : Se)
    → required < 2 ^ 32
    → create_kernel_token true se ≡ (success, some token)
    → access_check (some token) required se ≡ success
unfolding access_check create_kernel_token
create_kernel_token-access_check token required se b made =
    let full : bit_and (2 ^ 32 - 1) required ≡ required = (bit_and-eq_iff (2 ^ 32 - 1) required).1 (
      (bit_and-eq_left_iff required (2 ^ 32 - 1)).0
        (bit_and-low 32 required ∙ mod-eq_of_lt {n = required} {m = 2 ^ 32} b)) in
    ground (arith, made, full)
