-- ===== src/Mm/Allowed.antt =====
-- MmHandlePageFault lets through what the region at the address allows, and MmpProtectionToPte gives
-- the page-table entry the same rights.
use ntx_preview.Base.{
  ℕ, ◌+◌, ◌^◌, ◌≤◌, ◌<◌, ◌≡◌, ap, refl, Bool, true, false, not, ◌&&◌, arith, inl, inr, Bool-cases,
  Option-cases, Status, success, if◌then◌else◌, access_denied, invalid_parameter, bit_or,
  first_index-some,
}
use native.Mathlib.Nat.{mod-eq_of_lt}
use ntx_preview.Mm.Walk.{Memory, has, frame, pte_writable, pte_user, pte_nx, pte_soft_cow}
use ntx_preview.Mm.Space.{
  AddressSpace, find_region, protection_to_pte, prot_write, prot_user, prot_execute,
  region_flag_cow, region_flag_guard,
}
use ntx_preview.Mm.Fault.{
  Sections, handle_page_fault, fault_in, is_denied, error_write, error_user, error_instr,
}
use ntx_preview.Mm.Layout.{IsLaidOut}

-- The rights of an entry, by the tests that it is made with.
abbrev entry_of : Bool → Bool → Bool → Bool → ℕ
entry_of writes user executes cow =
    let w = if writes && not cow then pte_writable else 0 in
    let u = if user then bit_or w pte_user else w in
    let x = if not executes then bit_or u pte_nx else u in if cow then bit_or x pte_soft_cow else x

abbrev HasRights : Bool → Bool → Bool → Bool → ℕ → Type 0
HasRights writes user executes cow e =
    (has e pte_writable ≡ (writes && not cow))
    × (has e pte_user ≡ user)
    × (has e pte_nx ≡ not executes)
    × (has e pte_soft_cow ≡ cow)
    × (frame e ≡ 0)

entry_of-HasRights : (w u x c : Bool) → HasRights w u x c (entry_of w u x c)
entry_of-HasRights false false false false = (refl, refl, refl, refl, refl)
entry_of-HasRights false false false true = (refl, refl, refl, refl, refl)
entry_of-HasRights false false true false = (refl, refl, refl, refl, refl)
entry_of-HasRights false false true true = (refl, refl, refl, refl, refl)
entry_of-HasRights false true false false = (refl, refl, refl, refl, refl)
entry_of-HasRights false true false true = (refl, refl, refl, refl, refl)
entry_of-HasRights false true true false = (refl, refl, refl, refl, refl)
entry_of-HasRights false true true true = (refl, refl, refl, refl, refl)
entry_of-HasRights true false false false = (refl, refl, refl, refl, refl)
entry_of-HasRights true false false true = (refl, refl, refl, refl, refl)
entry_of-HasRights true false true false = (refl, refl, refl, refl, refl)
entry_of-HasRights true false true true = (refl, refl, refl, refl, refl)
entry_of-HasRights true true false false = (refl, refl, refl, refl, refl)
entry_of-HasRights true true false true = (refl, refl, refl, refl, refl)
entry_of-HasRights true true true false = (refl, refl, refl, refl, refl)
entry_of-HasRights true true true true = (refl, refl, refl, refl, refl)

-- The entry for a region is writable exactly if the protection has WRITE and the flags not COW,
-- open to user code exactly if the protection has USER, closed to execution exactly if it has not
-- EXECUTE, marked as copied on write exactly if the flags have COW, and has no address bits.
pub protection_to_pte-rights :
    (protection flags : ℕ)
    → (has (protection_to_pte protection flags) pte_writable
        ≡ (has protection prot_write && not (has flags region_flag_cow)))
      × (has (protection_to_pte protection flags) pte_user ≡ has protection prot_user)
      × (has (protection_to_pte protection flags) pte_nx ≡ not (has protection prot_execute))
      × (has (protection_to_pte protection flags) pte_soft_cow ≡ has flags region_flag_cow)
      × (frame (protection_to_pte protection flags) ≡ 0)
unfolding protection_to_pte
protection_to_pte-rights protection flags =
    entry_of-HasRights (has protection prot_write) (has protection prot_user)
      (has protection prot_execute) (has flags region_flag_cow)

-- In an address space whose regions stand one behind another, MmHandlePageFault succeeds only if
-- the address is in a region, which is no guard region, and whose protection has WRITE for a write,
-- USER for an access of user code, and EXECUTE for a fetch.
pub handle_page_fault-allowed :
    (space space' : AddressSpace) (fault error : ℕ) (sections : Sections) (m m' : Memory)
    → IsLaidOut space
    → handle_page_fault space fault error sections m ≡ (success, space', m')
    → (k : ℕ) × (k < space.region_count)
      × ((space.regions k).base ≤ fault)
      × (fault < (space.regions k).base + (space.regions k).size)
      × (has (space.regions k).flags region_flag_guard ≡ false)
      × (has error error_write ≡ true → has (space.regions k).protection prot_write ≡ true)
      × (has error error_user ≡ true → has (space.regions k).protection prot_user ≡ true)
      × (has error error_instr ≡ true → has (space.regions k).protection prot_execute ≡ true)
unfolding handle_page_fault fault_in find_region
handle_page_fault-allowed space space' fault error sections m m' l ran =
    let code = ap (λ (r : Status × AddressSpace × Memory). r.0) ran in
    elim (Bool-cases m.pages.ready) [
      | inr h ↦
          let refused : (handle_page_fault space fault error sections m).0 ≡ invalid_parameter =
            rw h refl in
          absurd (cc (refused, code))
      | inl on ↦ elim (Option-cases (find_region space fault)) [
        | inl e ↦
            let refused : (handle_page_fault space fault error sections m).0 ≡ access_denied =
              rw (on, e) refl in
            absurd (cc (refused, code))
        | inr (k, e) ↦ elim (Bool-cases (is_denied (space.regions k) error)) [
          | inl h ↦
              let refused : (handle_page_fault space fault error sections m).0 ≡ access_denied =
                rw (on, e, h) refl in
              absurd (cc (refused, code))
          | inr h ↦
              let (b, t, _) = first_index-some _ space.region_count k e in
              (
                k,
                b,
                ground (arith, t),
                ground (
                  arith,
                  t,
                  mod-eq_of_lt {n = (space.regions k).base + (space.regions k).size} {m = 2 ^ 64}
                      (omega (arith, l.within k b, l.top)),
                ),
                ground (arith, h),
                λ w. ground (arith, h, w),
                λ w. ground (arith, h, w),
                λ w. ground (arith, h, w),
              )
        ]
      ]
    ]
