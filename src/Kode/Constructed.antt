-- ===== src/Kode/Constructed.antt =====
-- The StatefulSet that constructStatefulSetSpec makes passes the validation.
use kode_operator.Prelude.{
  String, str_eq, str_eq_refl, any, Option, none, some, List, [], ◌∷◌, ◌++◌, ◌≡◌, refl, ap, subst,
  inl, inr, Bool-cases, map,
}
use kode_operator.Go.{Result, ok, err, describe, done, ◌>>=◌, pure, deref}
use kode_operator.Api.{Kode, KodeStorageSpec, ContainerTemplateSharedSpec}
use kode_operator.Objects.{Container, ContainerPort, StatefulSet, StatefulSetSpec}
use kode_operator.Env.{Env, St}
use kode_operator.Envoy.Containers.{ensure_sidecar_containers}
use kode_operator.Kode.Config.{KodeResourceConfig}
use kode_operator.Kode.StatefulSet.{
  construct_code_server_container, construct_webtop_container, construct_volumes_and_mounts,
  construct_init_plugin_container, construct_container_port, workspace_and_mount, main_container,
  assemble, construct_stateful_set_spec,
}
use kode_operator.Kode.Validate.{has_storage_mount, container_error, validate_pods}

container_error-mounted :
    (k : Kode) (config : KodeResourceConfig) (t : ContainerTemplateSharedSpec) (main : Container)
    (ports : List ContainerPort) (mount_path : String)
    → main.image ≡ t.image
    → container_error config t (record main {
      ports = ports;
      volume_mounts = (construct_volumes_and_mounts mount_path k config).1;
    })
      ≡ none
unfolding container_error construct_volumes_and_mounts has_storage_mount any
container_error-mounted k config t main ports mount_path h = go (config.kode_spec.storage) refl
  where
    go :
        (s : Option KodeStorageSpec)
        → config.kode_spec.storage ≡ s
        → container_error config t (record main {
          ports = ports;
          volume_mounts = (construct_volumes_and_mounts mount_path k config).1;
        })
          ≡ none
    go none e = rw (h, e) (simp str_eq_refl refl)
    go (some s) e = rw (h, e) (simp str_eq_refl refl)

-- A StatefulSet whose spec is the constructed one passes validatePods in every state.
abbrev Passed : KodeResourceConfig → StatefulSet → Result StatefulSetSpec → Type 0
Passed config x (ok spec) =
    (s : St) → validate_pods config (record x { spec = spec }) s ≡ (done none, s)
Passed config x (err e) = Unit

module _ (env : Env) (k : Kode) (config : KodeResourceConfig) (t : ContainerTemplateSharedSpec)
    (x : StatefulSet) (template : config.template.container_template_spec ≡ some t) where
  assemble-Passed :
      (main : Container) (sidecars inits : List Container) (ports : List ContainerPort)
      (mount_path : String)
      → main.image ≡ t.image
      → Passed config x (
          ok (
            assemble env config t
              (record main {
                ports = ports;
                volume_mounts = (construct_volumes_and_mounts mount_path k config).1;
              }
                ∷ sidecars)
              inits
              (construct_volumes_and_mounts mount_path k config).0))
  unfolding assemble validate_pods ◌>>=◌ deref pure
  assemble-Passed main sidecars inits ports mount_path h s =
      simp template
        (ap (λ e. (done e, s)) (container_error-mounted k config t main ports mount_path h))

  beside :
      (main : Container) (mount_path : String)
      → main.image ≡ t.image
      → (r : Result (List Container × List Container))
      → Passed config x (elim r [
        | err e ↦ err (describe "failed to ensure sidecar containers" e)
        | ok (sidecars, sidecar_inits) ↦ ok (
            assemble env config t
              (record main {
                ports = construct_container_port ∷ [];
                volume_mounts = (construct_volumes_and_mounts mount_path k config).1;
              }
                ∷ sidecars)
              (sidecar_inits
                ++ map construct_init_plugin_container t.init_plugins
                ++ map construct_init_plugin_container config.user_init_plugins)
              (construct_volumes_and_mounts mount_path k config).0)
      ])
  beside main mount_path h (err e) = tt
  beside main mount_path h (ok (sidecars, inits)) = assemble-Passed main sidecars _ _ mount_path h

  construct-Passed : Passed config x (construct_stateful_set_spec env k config t)
  unfolding construct_stateful_set_spec main_container construct_code_server_container
      construct_webtop_container
  construct-Passed =
      let (workspace, mount_path) = workspace_and_mount env.path_join config.kode_spec t in
      let sidecars = ensure_sidecar_containers env.yaml config.name config.port config.template in
      elim (Bool-cases (str_eq t.type "code-server")) [
        | inl a ↦
            rw (a, Passed)
              (beside (construct_code_server_container k t workspace) mount_path refl sidecars)
        | inr a ↦ elim (Bool-cases (str_eq t.type "webtop")) [
          | inl b ↦
              rw (a, b, Passed) (beside (construct_webtop_container k t) mount_path refl sidecars)
          | inr b ↦ rw (a, b, Passed) tt
        ]
      ]

-- A StatefulSet with the spec that constructStatefulSetSpec makes for a template passes the checks of
-- validateStatefulSet: the replicas, the main container's image and its volume mount.
pub construct_stateful_set_spec-validated :
    (env : Env) (k : Kode) (config : KodeResourceConfig) (t : ContainerTemplateSharedSpec)
    (spec : StatefulSetSpec) (x : StatefulSet) (s : St)
    → config.template.container_template_spec ≡ some t
    → construct_stateful_set_spec env k config t ≡ ok spec
    → validate_pods config (record x { spec = spec }) s ≡ (done none, s)
construct_stateful_set_spec-validated env k config t spec x s template h =
    subst (Passed config x) h (construct-Passed env k config t x template) s
