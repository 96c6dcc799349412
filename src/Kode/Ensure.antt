-- ===== src/Kode/Ensure.antt =====
-- ensure_container_secret.go, ensure_container_service.go and ensure_container_pvc.go of
-- internal/controllers/kode, with GetUsernameAndPasswordFromSecret of internal/common/utils.go. That SetControllerReference
-- may refuse is part of what CreateOrPatch answers. The 30 second timeouts are part of the answers too.
use kode_operator.Prelude.{
  String, str_eq, lookup, Bool, Option, none, some, [], ◌∷◌, ◌==◌, get_or, if◌then◌else◌,
}
use kode_operator.Go.{
  Error, Result, ok, err, new_error, describe, wrap, is_not_found, ◌>>=◌, ◌>>◌, pure, deref, if_err,
  if_failed, if_some,
}
use kode_operator.Api.{Kode, CredentialsSpec, storage_request}
use kode_operator.Api.Names.{existing_secret, get_secret_name, get_service_name, get_pvc_name}
use kode_operator.Objects.{
  Labels, Secret, Service, PersistentVolumeClaim, PersistentVolumeClaimSpec,
}
use kode_operator.Env.{
  Env, M, put_secret, put_service, put_pvc, normal, warning, ask, call, get, change, record_event,
}
use kode_operator.Kode.Config.{KodeResourceConfig, credentials}

unfoldable pub get_username_and_password : Secret → Result (String × String)
get_username_and_password s =
    let username = get_or (lookup "username" s.data_) "" in
    if str_eq username ""
    then err (new_error "username not found in secret")
    else ok (username, get_or (lookup "password" s.data_) "")

-- The data of constructSecretSpec.
unfoldable pub construct_secret_data : CredentialsSpec → Labels
construct_secret_data c = ("username", c.username) ∷ ("password", c.password) ∷ []

-- A write through `config.Credentials`, which points into the Kode where it has credentials. Where it has none, nothing reads
-- the default again.
unfoldable pub set_credentials : String × String → Kode → Kode
set_credentials (username, password) k = record k {
  spec = record (k.spec) {
    credentials = elim (k.spec.credentials) [
      | none ↦ none
      | some c ↦ some (record c { username = username; password = password })
    ];
  };
}

-- The spec of constructServiceSpec, whose object has no labels.
unfoldable pub construct_service : KodeResourceConfig → Service
construct_service config = record {
  labels = [];
  selector = config.labels;
  ports = record { protocol = "TCP"; port = config.port; target_port = config.port } ∷ [];
}

-- The spec of constructPVCSpec. A nil `Storage` or `Resources` is read there.
unfoldable pub construct_pvc_spec : KodeResourceConfig → M PersistentVolumeClaimSpec
construct_pvc_spec config = do
  s ← deref config.kode_spec.storage
  resources ← deref s.resources
  pure (record {
    access_modes = s.access_modes;
    resources = resources;
    storage_class_name = s.storage_class_name;
    volume_name = "";
  })

module _ (env : Env) where
  unfoldable pub ensure_secret : KodeResourceConfig → M (Option Error)
  ensure_secret config = do
    kode ← get
    let use_existing = (do
      found ← ask (λ t. env.get_secret t (get_secret_name kode) config.namespace)
      if_failed found (λ e. pure (some (wrap "failed to get Secret" e)))
          (λ s.
            if_failed (get_username_and_password s)
              (λ e. pure (some (wrap "failed to get username and password from Secret" e)))
              (λ c. change (set_credentials c) >> pure none)))
    let create = (do
      let put =
          put_secret (get_secret_name kode) config.labels
            (λ s. record s { data_ = construct_secret_data (credentials kode) })
      e ← call put (λ t. env.put_object t put)
      if_err e (λ e. pure (some (describe "failed to create or patch Secret" e))) (pure none))
    if_some (existing_secret kode) (λ n. use_existing) create

  unfoldable pub ensure_service : Kode → KodeResourceConfig → M (Option Error)
  ensure_service kode config = do
    let put = put_service (get_service_name kode) config.labels (λ s. construct_service config)
    e ← call put (λ t. env.put_object t put)
    if_err e (λ e. pure (some (describe "failed to create or patch Service" e))) (pure none)

  -- The mutate function's branch for a claim that exists. The fields that it must not change are those of `existing`.
  unfoldable pub mutate_existing_pvc :
      Bool
      → PersistentVolumeClaimSpec
      → PersistentVolumeClaim
      → PersistentVolumeClaim
      → M PersistentVolumeClaim
  mutate_existing_pvc resize_supported constructed existing pvc =
      let kept = record (pvc.spec) {
        access_modes = existing.spec.access_modes;
        volume_name = existing.spec.volume_name;
        storage_class_name = existing.spec.storage_class_name;
      } in
      let resized = record pvc {
        labels = [];
        annotations = [];
        spec = record kept { resources = constructed.resources };
      } in
      let unchanged = record pvc { labels = []; annotations = []; spec = kept } in
      if resize_supported
      then if storage_request pvc.spec.resources == storage_request constructed.resources
        then pure unchanged
        else record_event normal "PVCResizeAttempted" >> pure resized
      else record_event warning "PVCResizeSkipped" >> pure unchanged

  unfoldable pub mutate_pvc :
      Bool → Kode → KodeResourceConfig → PersistentVolumeClaim → M (Result PersistentVolumeClaim)
  mutate_pvc resize_supported kode config pvc = do
    constructed ← construct_pvc_spec config
    found ← ask (λ t. env.get_pvc t (get_pvc_name kode) config.namespace)
    if_failed found
        (λ e.
          if is_not_found e
          then (do
            record_event normal "PVCCreated"
            pure (ok (record pvc { labels = []; annotations = []; spec = constructed })))
          else pure (err (describe "failed to get existing PVC" e)))
        (λ existing. do
          pvc' ← mutate_existing_pvc resize_supported constructed existing pvc
          pure (ok pvc'))

  unfoldable pub ensure_persistent_volume_claim :
      Bool → Kode → KodeResourceConfig → M (Option Error)
  ensure_persistent_volume_claim resize_supported kode config =
      let create = (do
        call (put_pvc (get_pvc_name kode)) (λ t. tt)
        e ← env.create_or_patch_pvc (mutate_pvc resize_supported kode config)
        if_err e (λ e. pure (some (describe "failed to create or patch PVC" e))) (pure none)) in
      if_some config.kode_spec.storage
        (λ s.
          if_some s.existing_volume_claim (λ c. record_event normal "ExistingPVCUsed" >> pure none)
            create)
        (pure none)
