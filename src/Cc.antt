-- ===== src/Cc.antt =====
-- kernel/cc/init.c and kernel/include/cc.h: the policy of the cache, from the top of physical memory
-- that HalQueryPlatformInfo gives.
use ntx_preview.Base.{
  ℕ, ◌/◌, ◌%◌, ◌^◌, Bool, true, not, ◌||◌, Option, none, some, if◌then◌else◌, ◌==◌, Status, success,
  already_initialized, invalid_parameter,
}

-- `CC_POLICY`
pub record Policy : Type 0 where
  pub max_cached_pages : ℕ
  pub dirty_writeback_threshold_pages : ℕ
  pub aggressive_trim : ℕ

-- The globals of init.c.
pub record Cc : Type 0 where
  pub policy : Policy
  pub ready : Bool

-- The pages below the top of physical memory, of which there are 4096 where the top is not known.
abbrev pub estimated_pages : ℕ → ℕ
estimated_pages top = let pages = top / 2 ^ 12 in if pages == 0 then 4096 else pages

abbrev pub policy_for : ℕ → Policy
policy_for top =
    let cached = estimated_pages top / 8 % 2 ^ 32 in
    record {
      max_cached_pages = cached;
      dirty_writeback_threshold_pages = cached / 4;
      aggressive_trim = 0;
    }

-- `CcInitialize`, with `PhysicalMemoryTop`.
unfoldable pub initialize_cc : ℕ → Cc → Status × Cc
initialize_cc top cc_state =
    if cc_state.ready
    then (already_initialized, cc_state)
    else (success, record { policy = policy_for top; ready = true })

-- `CcQueryPolicy`; `out` is whether the result pointer is not NULL.
unfoldable pub query_policy : Bool → Cc → Status × Option Policy
query_policy out cc_state =
    if not out || not cc_state.ready
    then (invalid_parameter, none)
    else (success, some cc_state.policy)
