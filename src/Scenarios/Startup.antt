-- ===== src/Scenarios/Startup.antt =====
-- The theorem on the start of the operator at a concrete input.
use kode_operator.Prelude.{str_eq, Option, false, none, some, [], ◌++◌}
use kode_operator.Go.{Error, new_error}
use kode_operator.Startup.{
  Call, parse_level, build_logger, new_manager, complete, add_healthz_check, add_readyz_check,
  start, default_flags, Boot, Platform, main,
}
use kode_operator.Startup.Order.{WorksOff, logging, serving, main-WorksOff}

-- The probe endpoint is taken.
abbrev no_readyz : Boot → Call → Option Error
no_readyz s (parse_level level) = none
no_readyz s (build_logger config) = none
no_readyz s (new_manager options) = none
no_readyz s (complete controller) = none
no_readyz s (add_healthz_check name) = none
no_readyz s (add_readyz_check name) = some (new_error "taken")
no_readyz s start = none

abbrev laptop : Platform
laptop = record { environment = ""; answer = no_readyz }

main-WorksOff_example :
    WorksOff no_readyz
      (logging false default_flags ++ serving default_flags)
      []
      (main laptop default_flags [])
unfolding str_eq
main-WorksOff_example = main-WorksOff laptop default_flags []
