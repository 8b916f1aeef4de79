-- ===== src/Base/Codes.antt =====
-- `KSTATUS` of kernel/include/kstatus.h, with the integers that it stands for.
use mathlib.Core.Bool.{Bool, true, false}
use mathlib.Core.Path.{◌≡◌, refl}

pub data Status : Type 0 where
  success not_implemented invalid_parameter init_failed : Status
  not_found already_initialized access_denied would_block : Status

-- `Status == KSTATUS_SUCCESS`
abbrev pub succeeded : Status → Bool
succeeded success = true
succeeded _ = false

pub succeeded_eq : (status : Status) → succeeded status ≡ true → status ≡ success
succeeded_eq success h = refl
succeeded_eq not_implemented h = cc
succeeded_eq invalid_parameter h = cc
succeeded_eq init_failed h = cc
succeeded_eq not_found h = cc
succeeded_eq already_initialized h = cc
succeeded_eq access_denied h = cc
succeeded_eq would_block h = cc
