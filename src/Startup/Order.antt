-- ===== src/Startup/Order.antt =====
-- The order of the start.
use kode_operator.Prelude.{
  str_eq, Bool, true, false, Option, none, some, List, [], ◌∷◌, ◌++◌, ◌≡◌, ◌⊎◌, inl, inr, refl,
  Bool-cases,
}
use kode_operator.Go.{Error, Outcome, done, Exec, ◌>>=◌, pure, if_err}
use kode_operator.Startup.{
  Flags, Call, parse_level, build_logger, production, development, new_manager, complete,
  add_healthz_check, add_readyz_check, start, Boot, Exit, returned, exit_1, Platform, setup_kode,
  setup_entry_point, manager_options, kode_reconciler, entry_point_reconciler, attempt, or_exit,
  run_manager, main,
}

-- A list of calls is worked off: each is made after the one before it has succeeded, the first that fails ends the process with
-- exit code 1, and it returns if none fails.
abbrev pub WorksOff : (Boot → Call → Option Error) → List Call → Boot → Outcome Exit × Boot → Type 0
WorksOff answer [] s (o, t) = (o ≡ done returned) × (t ≡ s)
WorksOff answer (c ∷ todo) s (o, t) =
    ((answer s c ≡ none) × WorksOff answer todo (c ∷ s) (o, t))
    ⊎ ((e : Error) × (answer s c ≡ some e) × (o ≡ done exit_1) × (t ≡ c ∷ s))

-- The calls of the start, in their order.
abbrev pub logging : Bool → Flags → List Call
logging true flags = build_logger production ∷ []
logging false flags = parse_level flags.log_level ∷ build_logger (development flags.log_level) ∷ []

abbrev pub serving : Flags → List Call
serving flags =
    new_manager (manager_options flags)
    ∷ complete (setup_kode (kode_reconciler flags))
    ∷ complete (setup_entry_point entry_point_reconciler)
    ∷ add_healthz_check "healthz"
    ∷ add_readyz_check "readyz"
    ∷ start
    ∷ []

module _ (p : Platform) where
  -- From every list of calls made so far, the program works the calls off.
  unfoldable Follows : List Call → Exec Boot Exit → Type 0
  Follows todo prog = (s : Boot) → WorksOff p.answer todo s (prog s)

  or_exit-Follows :
      (todo : List Call) (rest : Exec Boot Exit) (c : Call)
      → Follows todo rest
      → Follows (c ∷ todo) (or_exit p c rest)
  unfolding Follows or_exit attempt if_err pure ◌>>=◌
  or_exit-Follows todo rest c h s = go (p.answer s c) refl
    where
      go :
          (e : Option Error)
          → p.answer s c ≡ e
          → WorksOff p.answer (c ∷ todo) s (if_err e (λ e. pure exit_1) rest (c ∷ s))
      go none q = inl (q, h (c ∷ s))
      go (some e) q = inr (e, q, refl, refl)

  returned-Follows : Follows [] (pure returned)
  unfolding Follows pure
  returned-Follows s = (refl, refl)

  run_manager-Follows : (flags : Flags) → Follows (serving flags) (run_manager p flags)
  unfolding run_manager
  run_manager-Follows flags = or_exit-Follows _ _ _ (
      or_exit-Follows _ _ _ (
        or_exit-Follows _ _ _
          (or_exit-Follows _ _ _ (or_exit-Follows _ _ _ (or_exit-Follows _ _ _ returned-Follows)))))

  main-Follows :
      (flags : Flags)
      → Follows (logging (str_eq p.environment "production") flags ++ serving flags) (main p flags)
  unfolding main
  main-Follows flags = elim (Bool-cases (str_eq p.environment "production")) [
    | inl b ↦ rw b (or_exit-Follows _ _ _ (run_manager-Follows flags))
    | inr b ↦ rw b (or_exit-Follows _ _ _ (or_exit-Follows _ _ _ (run_manager-Follows flags)))
  ]

-- main makes the calls of the logging, then those of the manager and of its two controllers, each after the one before it
-- has succeeded. It exits with 1 after the first that fails, and returns if none fails. So the manager is
-- started only once both controllers and both checks are in place.
pub main-WorksOff :
    (p : Platform) (flags : Flags) (s : Boot)
    → WorksOff p.answer
        (logging (str_eq p.environment "production") flags ++ serving flags)
        s
        (main p flags s)
unfolding Follows
main-WorksOff p flags s = main-Follows p flags s
