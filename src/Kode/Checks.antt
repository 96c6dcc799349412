-- ===== src/Kode/Checks.antt =====
-- check_resources.go of internal/controllers/kode.
use kode_operator.Prelude.{
  ℕ, String, any, all, lookup, Bool, true, false, not, Option, none, some, List, [], ◌∷◌, ◌&&◌,
  ◌||◌, ◌==◌, is_some, is_none, if◌then◌else◌,
}
use kode_operator.Go.{Result, ok, err, wrap, is_not_found, ◌>>=◌, pure, deref, if_failed}
use kode_operator.Api.{Kode}
use kode_operator.Api.Names.{
  existing_volume_claim, get_secret_name, get_service_name, get_stateful_set_name, get_pvc_name,
}
use kode_operator.Objects.{
  Secret, ServicePort, Pod, PodCondition, PodPhase, pod_running, pod_not_running,
}
use kode_operator.Env.{Env, M, ask}
use kode_operator.Kode.Config.{KodeResourceConfig}

-- `kode.Spec.Credentials != nil && kode.Spec.Credentials.EnableBuiltinAuth`
abbrev pub builtin_auth : Kode → Bool
builtin_auth k = elim (k.spec.credentials) [ none ↦ false | some c ↦ c.enable_builtin_auth ]

unfoldable pub secret_ready : Kode → Secret → Bool
secret_ready k s =
    let has_username = is_some (lookup "username" s.data_) in
    let has_password = is_some (lookup "password" s.data_) in
    not (not has_username || (builtin_auth k && not has_password))

unfoldable pub has_port : ℕ → List ServicePort → Bool
has_port port = any (λ p. p.port == port)

unfoldable pub pod_ready : List PodCondition → Bool
pod_ready [] = false
pod_ready (c ∷ cs) = let rest = pod_ready cs in if c.is_pod_ready then c.status_true else rest

abbrev is_running : PodPhase → Bool
is_running pod_running = true
is_running pod_not_running = false

-- No pod of the loop fails its test.
unfoldable pub pods_ready : List Pod → Bool
unfolding pod_ready
pods_ready = all (λ p. not (not (is_running p.phase) || not (pod_ready p.conditions)))

-- What the check functions do with the answer to a Get.
abbrev read : {A : Type 0} → String → Result A → (A → M (Result Bool)) → M (Result Bool)
read what found test =
    if_failed found (λ e. if is_not_found e then pure (ok false) else pure (err (wrap what e))) test

-- One resource of checkResourcesDeleted. `none` says that it is gone.
abbrev pub still_there : {A : Type 0} → Result A → Option (Result Bool)
still_there (ok a) = some (ok false)
still_there (err e) = if is_not_found e then none else some (err e)

abbrev pub unless_there : Option (Result Bool) → M (Result Bool) → M (Result Bool)
unless_there none rest = rest
unless_there (some r) rest = pure r

module _ (env : Env) where
  unfoldable pub check_secret_ready : Kode → KodeResourceConfig → M (Result Bool)
  check_secret_ready kode config = do
    found ← ask (λ t. env.get_secret t (get_secret_name kode) kode.namespace)
    read "failed to get Secret" found (λ s. pure (ok (secret_ready kode s)))

  unfoldable pub check_service_ready : Kode → KodeResourceConfig → M (Result Bool)
  check_service_ready kode config = do
    found ← ask (λ t. env.get_service t (get_service_name kode) kode.namespace)
    read "failed to get Service" found (λ s. pure (ok (has_port config.port s.ports)))

  unfoldable pub check_stateful_set_ready : Kode → KodeResourceConfig → M (Result Bool)
  check_stateful_set_ready kode config = do
    found ← ask (λ t. env.get_stateful_set t (get_stateful_set_name kode) kode.namespace)
    read "failed to get StatefulSet" found
        (λ s. do replicas ← deref s.spec.replicas; pure (ok (s.ready_replicas == replicas)))

  unfoldable pub check_pvc_ready : Kode → KodeResourceConfig → M (Result Bool)
  check_pvc_ready kode config =
      if is_none kode.spec.storage
      then pure (ok true)
      else if is_some (existing_volume_claim kode)
      then pure (ok true)
      else do
        found ← ask (λ t. env.get_pvc t (get_pvc_name kode) kode.namespace)
        read "failed to get PVC" found (λ p. pure (ok p.bound))

  unfoldable pub check_pods_ready : Kode → KodeResourceConfig → M (Result Bool)
  check_pods_ready kode config = do
    found ← ask (λ t. env.list_pods t kode.namespace config.labels)
    if_failed found (λ e. pure (err (wrap "failed to list pods" e)))
        (λ pods. elim pods [ [] ↦ pure (ok false) | p ∷ ps ↦ pure (ok (pods_ready (p ∷ ps))) ])

  unfoldable pub compose_resource_checks : List (Kode → KodeResourceConfig → M (Result Bool))
  compose_resource_checks =
      check_secret_ready ∷ check_service_ready ∷ check_stateful_set_ready ∷ check_pvc_ready
      ∷ check_pods_ready ∷ []

  -- The loop of checkResourcesReady.
  unfoldable pub run_checks :
      List (Kode → KodeResourceConfig → M (Result Bool))
      → Kode
      → KodeResourceConfig
      → M (Result Bool)
  run_checks [] kode config = pure (ok true)
  run_checks (check ∷ checks) kode config = do
    ready ← check kode config
    if_failed ready (λ e. pure (err e))
        (λ b. elim b [ true ↦ run_checks checks kode config | false ↦ pure (ok false) ])

  unfoldable pub check_resources_ready : Kode → KodeResourceConfig → M (Result Bool)
  check_resources_ready = run_checks compose_resource_checks

  -- `skipCheck` of the claim
  unfoldable pub skip_pvc : Kode → Bool
  skip_pvc kode =
      env.is_test_environment || is_none kode.spec.storage || is_some (existing_volume_claim kode)

  unfoldable pub check_resources_deleted : Kode → M (Result Bool)
  check_resources_deleted kode = do
    sts ← ask (λ t. env.get_stateful_set t (get_stateful_set_name kode) kode.namespace)
    unless_there (still_there sts) do
      secret ← ask (λ t. env.get_secret t (get_secret_name kode) kode.namespace)
      unless_there (still_there secret) do
        service ← ask (λ t. env.get_service t (get_service_name kode) kode.namespace)
        unless_there (still_there service) (
            if skip_pvc kode then pure (ok true) else do
              pvc ← ask (λ t. env.get_pvc t (get_pvc_name kode) kode.namespace)
              unless_there (still_there pvc) (pure (ok true)))
