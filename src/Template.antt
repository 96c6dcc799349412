-- ===== src/Template.antt =====
-- The template manager: internal/template/template.go.
pub mod Errors
pub mod Cache
pub mod Frame
pub mod Keys
pub mod Named
use kode_operator.Prelude.{
  ℕ, String, ◌<>◌, str_eq, lookup, insert, Bool, true, false, Option, none, some, List, get_or,
  if◌then◌else◌,
}
use kode_operator.Go.{
  Error, Result, ok, err, new_error, wrap, is_not_found, ◌>>=◌, ◌>>◌, pure, nil_pointer, modify,
  gets, if_err, if_failed, if_some,
}
use kode_operator.Api.{
  CrossNamespaceObjectReference, Template, ContainerTemplateSharedSpec, EntryPointSpec,
}
use kode_operator.Env.{Env, St, M, ask}

-- The template kinds of common_types.go that the operator handles.
abbrev pub template_kind_container : String
template_kind_container = "ContainerTemplate"

abbrev pub template_kind_cluster_container : String
template_kind_cluster_container = "ClusterContainerTemplate"

unfoldable pub validate_ref : CrossNamespaceObjectReference → Option Error
validate_ref ref =
    if str_eq ref.kind ""
    then some (new_error "template reference kind is empty")
    else if str_eq ref.name ""
    then some (new_error "template reference name is empty")
    else none

unfoldable pub get_cache_key : CrossNamespaceObjectReference → String
get_cache_key ref = ref.kind <> "/" <> get_or ref.namespace "" <> "/" <> ref.name

-- A TemplateNotFoundError carries no API status, so IsNotFound is false of it.
unfoldable pub handle_not_found_error : Error → CrossNamespaceObjectReference → Error
handle_not_found_error e ref =
    if is_not_found e
    then new_error (ref.kind <> " not found: " <> get_or ref.namespace "" <> "/" <> ref.name)
    else e

abbrev pub with_spec : Template → ContainerTemplateSharedSpec → Template
with_spec t spec = record t {
  entry_point_ref = elim (spec.entry_point_ref) [ none ↦ t.entry_point_ref | some r ↦ some r ];
  container_template_spec = some spec;
  port = spec.port;
}

module _ (env : Env) where
  unfoldable pub fetch_container_template :
      Template → CrossNamespaceObjectReference → M (Result Template)
  fetch_container_template template ref = do
    found ← ask (λ t. env.get_container_template t ref.name template.namespace)
    if_failed found (λ e. pure (err (handle_not_found_error e ref)))
        (λ spec. pure (ok (with_spec template spec)))

  unfoldable pub fetch_cluster_container_template :
      Template → CrossNamespaceObjectReference → M (Result Template)
  fetch_cluster_container_template template ref = do
    found ← ask (λ t. env.get_cluster_container_template t ref.name)
    if_failed found (λ e. pure (err (handle_not_found_error e ref)))
        (λ spec. pure (ok (with_spec template spec)))

  -- The part of fetchTemplate after the switch: the EntryPoint, if one is referred to.
  unfoldable pub fetch_entry_point : Template → M (Result Template)
  fetch_entry_point template =
      if_some template.entry_point_ref
        (λ ref. do
          found ← ask (λ t. env.get_entry_point t ref.name "")
          if_failed found
              (λ e.
                if is_not_found e
                then pure (ok template)
                else pure (err (wrap "failed to fetch EntryPoint" e)))
              (λ e. pure (ok (record template { entry_point_spec = some e.spec }))))
        (pure (ok template))

  unfoldable pub fetch_template : CrossNamespaceObjectReference → M (Result Template)
  fetch_template ref = do
    let template : Template = record {
      kind = ref.kind;
      name = ref.name;
      namespace = get_or ref.namespace "";
      port = 0;
      container_template_spec = none;
      entry_point_ref = none;
      entry_point_spec = none;
    }
    let finish = λ (m : M (Result Template)). (do
      found ← m
      if_failed found (λ e. pure (err (wrap ("failed to fetch " <> ref.kind <> " template") e)))
          fetch_entry_point)
    if str_eq ref.kind template_kind_container
        then finish (fetch_container_template template ref)
        else if str_eq ref.kind template_kind_cluster_container
        then finish (fetch_cluster_container_template template ref)
        else pure (err (new_error ("unknown template kind: " <> ref.kind)))

  -- The assignment of the captured variable `template`.
  unfoldable pub set_fetched : Option Template → M Unit
  unfolding modify
  set_fetched t = modify (λ s. record s { fetched = t })

  -- `m.cache[key] = template`
  unfoldable pub remember : String → Option Template → M Unit
  unfolding modify pure
  remember key none = pure tt
  remember key (some t) = modify (λ s. record s { cache = insert key t s.cache })

  -- The function that Fetch hands to ExponentialBackoff. A NotFound error ends the retries, any
  -- other is tried again.
  unfoldable pub try_fetch : CrossNamespaceObjectReference → M (Result Bool)
  try_fetch ref = do
    found ← fetch_template ref
    if_failed found (λ e. do set_fetched none; pure (if is_not_found e then err e else ok false))
        (λ t. do set_fetched (some t); pure (ok true))

  -- What Fetch does once the backoff has ended, and what it does where the cache has no template. The backoff makes
  -- five attempts. A nil template is never stored with a nil error, since the last run of the closure set it; the
  -- branch stands for the nil pointer that the code would return.
  unfoldable pub fetch_stored : String → Option Error → M (Result (Option Template))
  fetch_stored key e =
      if_err e (λ e. pure (err (wrap "failed to fetch template after retries" e)))
        do found ← gets (λ (s : St). s.fetched); remember key found; pure (ok found)

  unfoldable pub fetch_fresh : CrossNamespaceObjectReference → M (Result (Option Template))
  fetch_fresh ref = do
    set_fetched none
    e ← env.exponential_backoff 5 (try_fetch ref)
    fetch_stored (get_cache_key ref) e

  -- `Fetch`
  unfoldable pub fetch : CrossNamespaceObjectReference → M (Result (Option Template))
  fetch ref =
      if_err (validate_ref ref) (λ e. pure (err e))
        do
          cache ← gets (λ (s : St). s.cache)
          if_some (lookup (get_cache_key ref) cache) (λ t. pure (ok (some t))) (fetch_fresh ref)
