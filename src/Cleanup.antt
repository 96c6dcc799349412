-- ===== src/Cleanup.antt =====
-- The cleanup manager: internal/cleanup/cleanup_manager.go, and the list of a Kode's child
-- resources in internal/controllers/kode/cleanup.go.
pub mod Children
use kode_operator.Prelude.{
  ℕ, String, ◌<>◌, Bool, true, false, not, Option, none, some, List, [], ◌∷◌, ◌++◌, ◌&&◌,
  if◌then◌else◌,
}
use kode_operator.Go.{Error, Result, ok, err, wrap, is_not_found, ◌>>=◌, pure, if_err}
use kode_operator.Api.{Kode, KodeStorageSpec}
use kode_operator.Api.Names.{get_service_name, get_secret_name, get_pvc_name}
use kode_operator.Objects.{
  Kind, stateful_set, service, secret, persistent_volume_claim, http_route, pod, same_kind,
  Resource,
}
use kode_operator.Env.{Env, M, Call, delete, call}
use kode_operator.StateMachine.{CtrlResult, stop, requeue_after}

-- `CleanupableResource`
pub record CleanupableResource : Type 0 where
  pub get_resources : List Resource
  pub should_delete : Resource → Bool

abbrev pub second : ℕ
second = 1_000_000_000

unfoldable pub kind_name : Kind → String
kind_name stateful_set = "StatefulSet"
kind_name service = "Service"
kind_name secret = "Secret"
kind_name persistent_volume_claim = "PersistentVolumeClaim"
kind_name http_route = "HTTPRoute"
kind_name pod = "Pod"

abbrev pub deletion_error : Resource → Option Error → Option Error
deletion_error r none = none
deletion_error r (some e) =
    if is_not_found e then none else some (wrap ("failed to delete " <> kind_name r.kind) e)

module _ (env : Env) where
  unfoldable pub delete_resource : Resource → M (Option Error)
  delete_resource r = do e ← call (delete r) (λ t. env.delete_object t r); pure (deletion_error r e)

  -- The loop of Cleanup, with `deletionInitiated`.
  unfoldable pub cleanup_from : (Resource → Bool) → Bool → List Resource → M (Result Bool)
  cleanup_from should_delete initiated [] = pure (ok initiated)
  cleanup_from should_delete initiated (r ∷ rs) = do
    let skip = cleanup_from should_delete initiated rs
    let go_on = cleanup_from should_delete true rs
    let visit = (do
      e ← delete_resource r
      if_err e (λ e. if is_not_found e then skip else pure (err e)) go_on)
    if should_delete r then visit else skip

  unfoldable pub cleanup : CleanupableResource → M (Result CtrlResult)
  cleanup c = do
    done ← cleanup_from c.should_delete false c.get_resources
    pure (elim done [
      | err e ↦ err e
      | ok initiated ↦ ok (if initiated then requeue_after second else stop)
    ])

abbrev pub own_claim : Option KodeStorageSpec → Bool
own_claim none = false
own_claim (some s) = elim (s.existing_volume_claim) [ none ↦ true | some c ↦ false ]

abbrev pub keeps_volume : Option KodeStorageSpec → Bool
keeps_volume none = false
keeps_volume (some s) = elim (s.keep_volume) [ none ↦ false | some b ↦ b ]

-- `GetResources` of KodeCleanupResource
unfoldable pub kode_resources : Kode → List Resource
kode_resources k =
    (record { kind = stateful_set; name = k.name; namespace = k.namespace }
      ∷ record { kind = service; name = get_service_name k; namespace = k.namespace }
      ∷ record { kind = secret; name = get_secret_name k; namespace = k.namespace }
      ∷ [])
    ++ (if own_claim k.spec.storage
        then record {
          kind = persistent_volume_claim;
          name = get_pvc_name k;
          namespace = k.namespace;
        }
          ∷ []
        else [])

-- `ShouldDelete` of KodeCleanupResource
unfoldable pub kode_should_delete : Kode → Resource → Bool
kode_should_delete k r =
    if keeps_volume k.spec.storage then not (same_kind r.kind persistent_volume_claim) else true

unfoldable pub new_kode_cleanup_resource : Kode → CleanupableResource
unfolding kode_resources kode_should_delete
new_kode_cleanup_resource k = record {
  get_resources = kode_resources k;
  should_delete = kode_should_delete k;
}
