-- ===== src/Kode/Changes.antt =====
-- configure_resources.go of internal/controllers/kode.
use kode_operator.Prelude.{
  String, str_eq, all, lookup, Bool, true, false, not, Option, none, some, List, [], ◌∷◌, ◌&&◌,
  ◌||◌, ◌==◌, is_some, get_or, map, if◌then◌else◌,
}
use kode_operator.Go.{
  Error, Result, ok, err, wrap, is_not_found, ◌>>=◌, ◌>>◌, pure, deref, when, if_err, if_failed,
}
use kode_operator.Api.{storage_request, is_empty}
use kode_operator.Api.Names.{get_secret_name, get_service_name, get_stateful_set_name, get_pvc_name}
use kode_operator.Objects.{
  Labels, Container, ServicePort, PersistentVolumeClaim, PersistentVolumeClaimSpec, Pod, Resource,
  Kind,
}
use kode_operator.Env.{Env, M, delete, ask, call, get}
use kode_operator.Kode.Config.{KodeResourceConfig, credentials}
use kode_operator.Kode.StatefulSet.{
  construct_stateful_set_spec, ensure_stateful_set, pod_template_hash,
}
use kode_operator.Kode.Ensure.{
  construct_secret_data, construct_service, construct_pvc_spec, ensure_secret, ensure_service,
  ensure_persistent_volume_claim,
}

-- The map `changes`: which of its four keys are there.
pub record Changes : Type 0 where
  pub secret : Bool
  pub service : Bool
  pub stateful_set : Bool
  pub pvc : Bool

-- `len(changes) == 0`
unfoldable pub no_changes : Changes → Bool
no_changes c = not (c.secret || c.service || c.stateful_set || c.pvc)

-- Every entry of the second map is in the first: hasRequiredLabels of validate_resources.go.
unfoldable pub has_required_labels : Labels → Labels → Bool
has_required_labels actual =
    all (λ e. elim (lookup (e.0) actual) [ none ↦ false | some v ↦ str_eq v (e.1) ])

-- `reflect.DeepEqual` of two maps
unfoldable pub same_map : Labels → Labels → Bool
unfolding has_required_labels
same_map a b = has_required_labels a b && has_required_labels b a

unfoldable pub same_port : ServicePort → ServicePort → Bool
same_port a b = str_eq a.protocol b.protocol && a.port == b.port && a.target_port == b.target_port

-- `reflect.DeepEqual` of two slices
unfoldable pub same_list : {A : Type 0} → (A → A → Bool) → List A → List A → Bool
same_list eq [] [] = true
same_list eq (x ∷ xs) (y ∷ ys) = eq x y && same_list eq xs ys
same_list eq _ _ = false

-- The loops over containers: some image differs from the desired one at its index.
unfoldable pub images_differ : List String → List Container → Bool
images_differ (i ∷ is) (c ∷ cs) = not (str_eq i c.image) || images_differ is cs
images_differ _ _ = false

-- Whether detectPVCChanges marks the claim.
unfoldable pub pvc_changed : PersistentVolumeClaim → PersistentVolumeClaimSpec → Bool
unfolding same_list
pvc_changed existing desired =
    not (storage_request existing.spec.resources == storage_request desired.resources)
    || not (same_list str_eq existing.spec.access_modes desired.access_modes)
    || elim (desired.storage_class_name) [
      | none ↦ false
      | some d ↦ elim (existing.spec.storage_class_name) [ none ↦ true | some c ↦ not (str_eq c d) ]
    ]

-- A missing object is marked; another error is returned.
abbrev detect : {A : Type 0} → Result A → (A → M (Result Bool)) → M (Result Bool)
detect found test =
    if_failed found (λ e. if is_not_found e then pure (ok true) else pure (err e)) test

module _ (env : Env) where
  unfoldable pub detect_secret_changes : KodeResourceConfig → M (Result Bool)
  detect_secret_changes config = do
    kode ← get
    found ← ask (λ t. env.get_secret t (get_secret_name kode) kode.namespace)
    detect found
        (λ s. pure (ok (not (same_map s.data_ (construct_secret_data (credentials kode))))))

  unfoldable pub detect_service_changes : KodeResourceConfig → M (Result Bool)
  detect_service_changes config = do
    kode ← get
    found ← ask (λ t. env.get_service t (get_service_name kode) kode.namespace)
    let desired = construct_service config
    detect found (λ s. pure (
        ok (
          not (same_list same_port s.ports desired.ports)
          || not (same_map s.selector desired.selector))))

  -- The loop over the pods: one with a wrong image is deleted, whether that succeeds or not.
  unfoldable pub delete_outdated_pods : String → List Container → List Pod → Bool → M Bool
  delete_outdated_pods namespace desired [] marked = pure marked
  delete_outdated_pods namespace desired (p ∷ ps) marked = do
    let outdated = images_differ p.images desired
    let r : Resource = record { kind = Kind.pod; name = p.name; namespace = namespace }
    when outdated (call (delete r) (λ t. env.delete_object t r) >>= λ e. pure tt)
    delete_outdated_pods namespace desired ps (outdated || marked)

  unfoldable pub detect_stateful_set_changes : KodeResourceConfig → M (Result Bool)
  detect_stateful_set_changes config = do
    kode ← get
    found ← ask (λ t. env.get_stateful_set t (get_stateful_set_name kode) kode.namespace)
    detect found λ existing. do
      spec ← deref config.template.container_template_spec
      let built = construct_stateful_set_spec env kode config spec
      if_failed built (λ e. pure (err e))
          λ desired. do
            let image_mismatch =
                images_differ (map (λ (c : Container). c.image) existing.spec.template.containers)
                  desired.template.containers
            let hash_mismatch = not (
                str_eq (get_or (lookup pod_template_hash existing.spec.template.annotations) "")
                  (get_or (lookup pod_template_hash desired.template.annotations) ""))
            pods ← ask (λ t. env.list_pods t kode.namespace config.labels)
            if_failed pods (λ e. pure (err e))
                λ ps. do
                  marked ←
                      delete_outdated_pods kode.namespace desired.template.containers ps
                        (image_mismatch || hash_mismatch)
                  pure (ok marked)

  unfoldable pub detect_pvc_changes : KodeResourceConfig → M (Result Bool)
  detect_pvc_changes config = do
    kode ← get
    storage ← deref config.kode_spec.storage
    let check = (do
      found ← ask (λ t. env.get_pvc t (get_pvc_name kode) kode.namespace)
      detect found λ existing. do
        desired ← construct_pvc_spec config
        pure (ok (pvc_changed existing desired)))
    if is_some storage.existing_volume_claim then pure (ok false) else check

  unfoldable pub detect_changes : KodeResourceConfig → M (Result Changes)
  detect_changes config = do
    secret ← detect_secret_changes config
    if_failed secret (λ e. pure (err e))
        λ secret. do
          service ← detect_service_changes config
          if_failed service (λ e. pure (err e))
              λ service. do
                sts ← detect_stateful_set_changes config
                if_failed sts (λ e. pure (err e))
                    λ sts. do
                      kode ← get
                      pvc ←
                          (if is_empty kode.spec.storage
                            then pure (ok false)
                            else detect_pvc_changes config)
                      if_failed pvc (λ e. pure (err e))
                          λ pvc. pure (
                            ok (record {
                              secret = secret;
                              service = service;
                              stateful_set = sts;
                              pvc = pvc;
                            }))

  -- One step of applyConfiguration: run it if it is marked, and wrap its error.
  abbrev pub apply_if : Bool → String → M (Option Error) → M (Option Error) → M (Option Error)
  apply_if false what ensure rest = rest
  apply_if true what ensure rest = do e ← ensure; if_err e (λ e. pure (some (wrap what e))) rest

  -- The Kode is read again before each step, since the first may write the credentials.
  unfoldable pub apply_configuration : KodeResourceConfig → Changes → M (Option Error)
  apply_configuration config changes =
      apply_if changes.secret "failed to ensure Secret" (ensure_secret env config) (
        apply_if changes.service "failed to ensure Service"
          (get >>= λ kode. ensure_service env kode config)
          (apply_if changes.stateful_set "failed to ensure StatefulSet"
            (get >>= λ kode. ensure_stateful_set env kode config)
            (get >>= λ kode.
              apply_if (not (is_empty kode.spec.storage) && changes.pvc)
                "failed to ensure PersistentVolumeClaim"
                (ensure_persistent_volume_claim env true kode config) (pure none))))
