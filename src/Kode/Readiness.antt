-- ===== src/Kode/Readiness.antt =====
-- What checkResourcesReady promises.
use kode_operator.Prelude.{Bool, true, false, List, ◌∷◌, ◌≡◌, refl, ap, subst, ◌∙◌}
use kode_operator.Go.{Result, ok, err, Outcome, done, panic, continue, ◌>>=◌, pure, if_failed}
use kode_operator.Go.Keeps.{Keeps}
use kode_operator.Api.{Kode}
use kode_operator.Env.{Env, St, M}
use kode_operator.Kode.Config.{KodeResourceConfig}
use kode_operator.Kode.Checks.{
  check_secret_ready, check_service_ready, check_stateful_set_ready, check_pvc_ready,
  check_pods_ready, compose_resource_checks, run_checks, check_resources_ready,
}
use kode_operator.Kode.Frame.Writes.{
  Keeps-check_secret_ready, Keeps-check_service_ready, Keeps-check_stateful_set_ready,
  Keeps-check_pvc_ready, Keeps-check_pods_ready,
}

abbrev Check : Type 0
Check = Kode → KodeResourceConfig → M (Result Bool)

abbrev pub Passes : M (Result Bool) → St → Type 0
Passes m s = m s ≡ (done (ok true), s)

module _ (env : Env) (k : Kode) (c : KodeResourceConfig) where
  run_checks-first :
      (check : Check) (checks : List Check) (s t : St)
      → Keeps (λ x. x ≡ s) (check k c)
      → run_checks env (check ∷ checks) k c s ≡ (done (ok true), t)
      → Passes (check k c) s × (run_checks env checks k c s ≡ (done (ok true), t))
  unfolding run_checks ◌>>=◌ if_failed pure
  run_checks-first check checks s t keeps h = go (check k c s) refl (keeps.at s refl) h
    where
      go :
          (r : Outcome (Result Bool) × St)
          → check k c s ≡ r
          → r.1 ≡ s
          → continue r.0
              (λ ready.
                if_failed ready
                  (λ e. pure (err e))
                  (λ b. elim b [ true ↦ run_checks env checks k c | false ↦ pure (ok false) ]))
              r.1
            ≡ (done (ok true), t)
          → Passes (check k c) s × (run_checks env checks k c s ≡ (done (ok true), t))
      go (done (ok true), u) e p h = (
        e ∙ ap (λ x. (done (ok true), x)) p,
        subst (λ x. run_checks env checks k c x ≡ (done (ok true), t)) p h,
      )
      go (done (ok false), u) e p h = cc
      go (done (err x), u) e p h = cc
      go (panic, u) e p h = cc

-- checkResourcesReady answers that the resources are ready only if each of its five checks says so,
-- of one and the same state.
pub check_resources_ready_sound :
    (env : Env) (k : Kode) (c : KodeResourceConfig) (s t : St)
    → check_resources_ready env k c s ≡ (done (ok true), t)
    → Passes (check_secret_ready env k c) s
      × Passes (check_service_ready env k c) s
      × Passes (check_stateful_set_ready env k c) s
      × Passes (check_pvc_ready env k c) s
      × Passes (check_pods_ready env k c) s
unfolding check_resources_ready compose_resource_checks
check_resources_ready_sound env k c s t h =
    let a = run_checks-first env k c _ _ s t (Keeps-check_secret_ready env k c) h in
    let b = run_checks-first env k c _ _ s t (Keeps-check_service_ready env k c) (a.1) in
    let d = run_checks-first env k c _ _ s t (Keeps-check_stateful_set_ready env k c) (b.1) in
    let e = run_checks-first env k c _ _ s t (Keeps-check_pvc_ready env k c) (d.1) in
    let f = run_checks-first env k c _ _ s t (Keeps-check_pods_ready env k c) (e.1) in
    (a.0, b.0, d.0, e.0, f.0)
