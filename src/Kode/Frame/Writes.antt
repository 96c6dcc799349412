-- ===== src/Kode/Frame/Writes.antt =====
-- The parts that check the child resources, detect their changes and write them keep every stable
-- predicate.
use kode_operator.Prelude.{String, Bool, true, false, Option, none, some, List, [], ◌∷◌}
use kode_operator.Go.{Error, Result, new_error, ◌>>=◌, pure, deref}
use kode_operator.Go.Keeps.{
  Keeps, Keeps-pure, Keeps-if, Keeps-if_failed, Keeps-if_some, Keeps-bind, keeps_rules,
}
use kode_operator.Api.{Kode, KodeStorageSpec}
use kode_operator.Objects.{Container, Pod, PersistentVolumeClaim, StatefulSet}
use kode_operator.Env.{Env, St, M}
use kode_operator.Env.Frame.{env_rules}
use kode_operator.Kode.Config.{KodeResourceConfig}
use kode_operator.Kode.Checks.{
  check_secret_ready, check_service_ready, check_stateful_set_ready, check_pvc_ready,
  check_pods_ready, compose_resource_checks, run_checks, check_resources_ready, unless_there,
  check_resources_deleted,
}
use kode_operator.Kode.StatefulSet.{ensure_stateful_set}
use kode_operator.Kode.Ensure.{
  construct_pvc_spec, ensure_secret, ensure_service, mutate_existing_pvc, mutate_pvc,
  ensure_persistent_volume_claim,
}
use kode_operator.Kode.Changes.{
  Changes, detect_secret_changes, detect_service_changes, delete_outdated_pods,
  detect_stateful_set_changes, detect_pvc_changes, detect_changes, apply_if, apply_configuration,
}
use kode_operator.Kode.Validate.{
  require, step, container_error, validate_secret, validate_service, validate_pods,
  validate_stateful_set, validate_class, validate_pvc, validate_configuration,
}
use kode_operator.Kode.Frame.{
  Stable, secrets, services, stateful_sets, claims, pods, to_credentials,
}
use kode_operator.Kode.Frame.Reads.{Stable-event}

module _ {P : St → Type 0} where
  Keeps-pods :
      {A : Type 0} (ps : List Pod) (m : M A) (n : Pod → List Pod → M A)
      → Keeps P m
      → ((p : Pod) (qs : List Pod) → Keeps P (n p qs))
      → Keeps P (elim ps [ [] ↦ m | p ∷ qs ↦ n p qs ])
  Keeps-pods [] m n km kn = km
  Keeps-pods (p ∷ ps) m n km kn = kn p ps

  Keeps-ready :
      {A : Type 0} (b : Bool) (m n : M A)
      → Keeps P m
      → Keeps P n
      → Keeps P (elim b [ true ↦ m | false ↦ n ])
  Keeps-ready true m n km kn = km
  Keeps-ready false m n km kn = kn

  Keeps-unless_there :
      (r : Option (Result Bool)) (m : M (Result Bool)) → Keeps P m → Keeps P (unless_there r m)
  Keeps-unless_there none m km = km
  Keeps-unless_there (some r) m km = search keeps_rules

module _ (env : Env) {P : St → Type 0} where
  pub Keeps-check_secret_ready :
      (k : Kode) (c : KodeResourceConfig) → Keeps P (check_secret_ready env k c)
  unfolding check_secret_ready
  Keeps-check_secret_ready k c = search (keeps_rules, env_rules) depth 20

  pub Keeps-check_service_ready :
      (k : Kode) (c : KodeResourceConfig) → Keeps P (check_service_ready env k c)
  unfolding check_service_ready
  Keeps-check_service_ready k c = search (keeps_rules, env_rules) depth 20

  pub Keeps-check_stateful_set_ready :
      (k : Kode) (c : KodeResourceConfig) → Keeps P (check_stateful_set_ready env k c)
  unfolding check_stateful_set_ready
  Keeps-check_stateful_set_ready k c = search (keeps_rules, env_rules) depth 20

  pub Keeps-check_pvc_ready :
      (k : Kode) (c : KodeResourceConfig) → Keeps P (check_pvc_ready env k c)
  unfolding check_pvc_ready
  Keeps-check_pvc_ready k c = search (keeps_rules, env_rules) depth 20

  pub Keeps-check_pods_ready :
      (k : Kode) (c : KodeResourceConfig) → Keeps P (check_pods_ready env k c)
  unfolding check_pods_ready
  Keeps-check_pods_ready k c = Keeps-bind _ _ (search env_rules) (λ r.
      Keeps-if_failed r _ _ (λ e. search keeps_rules)
        (λ ps. Keeps-pods ps _ _ (search keeps_rules) (λ p qs. search keeps_rules)))

  Keeps-run_check :
      (check : Kode → KodeResourceConfig → M (Result Bool))
      (checks : List (Kode → KodeResourceConfig → M (Result Bool))) (k : Kode)
      (c : KodeResourceConfig)
      → Keeps P (check k c)
      → Keeps P (run_checks env checks k c)
      → Keeps P (run_checks env (check ∷ checks) k c)
  unfolding run_checks
  Keeps-run_check check checks k c kc kr = Keeps-bind _ _ kc (λ r.
      Keeps-if_failed r _ _ (λ e. search keeps_rules)
        (λ b. Keeps-ready b _ _ kr (search keeps_rules)))

  Keeps-no_checks : (k : Kode) (c : KodeResourceConfig) → Keeps P (run_checks env [] k c)
  unfolding run_checks
  Keeps-no_checks k c = search keeps_rules

  -- The checks only read.
  pub Keeps-check_resources_ready :
      (k : Kode) (c : KodeResourceConfig) → Keeps P (check_resources_ready env k c)
  unfolding check_resources_ready compose_resource_checks
  Keeps-check_resources_ready k c =
      search
        (
          Keeps-run_check, Keeps-no_checks, Keeps-check_secret_ready, Keeps-check_service_ready,
          Keeps-check_stateful_set_ready, Keeps-check_pvc_ready, Keeps-check_pods_ready,
        )
        depth 30

  pub Keeps-check_resources_deleted : (k : Kode) → Keeps P (check_resources_deleted env k)
  unfolding check_resources_deleted
  Keeps-check_resources_deleted k = search (keeps_rules, env_rules, Keeps-unless_there) depth 30

module _ (env : Env) {P : St → Type 0} (stable : Stable P) where
  Stable-delete_outdated_pods :
      (ns : String) (desired : List Container) (ps : List Pod) (b : Bool)
      → Keeps P (delete_outdated_pods env ns desired ps b)
  unfolding delete_outdated_pods
  Stable-delete_outdated_pods ns desired [] b = search keeps_rules
  Stable-delete_outdated_pods ns desired (p ∷ ps) b =
      search
        (
          keeps_rules,
          env_rules,
          stable.calling _ _ (pods _ _),
          Stable-delete_outdated_pods ns desired ps _,
        )
        depth 20

  pub Stable-detect_changes : (c : KodeResourceConfig) → Keeps P (detect_changes env c)
  unfolding detect_changes detect_secret_changes detect_service_changes detect_stateful_set_changes
      detect_pvc_changes construct_pvc_spec
  Stable-detect_changes c = search (keeps_rules, env_rules, Stable-delete_outdated_pods) depth 40

  Stable-ensure_secret : (c : KodeResourceConfig) → Keeps P (ensure_secret env c)
  unfolding ensure_secret
  Stable-ensure_secret c =
      search
        (
          keeps_rules,
          env_rules,
          stable.calling _ _ (secrets _ _ _),
          stable.editing (to_credentials _),
        )
        depth 20

  Stable-ensure_service : (k : Kode) (c : KodeResourceConfig) → Keeps P (ensure_service env k c)
  unfolding ensure_service
  Stable-ensure_service k c =
      search (keeps_rules, env_rules, stable.calling _ _ (services _ _ _)) depth 20

  Stable-ensure_stateful_set :
      (k : Kode) (c : KodeResourceConfig) → Keeps P (ensure_stateful_set env k c)
  unfolding ensure_stateful_set
  Stable-ensure_stateful_set k c =
      search (keeps_rules, env_rules, stable.calling _ _ (stateful_sets _ _ _)) depth 20

  Stable-mutate_pvc :
      (b : Bool) (k : Kode) (c : KodeResourceConfig) (p : PersistentVolumeClaim)
      → Keeps P (mutate_pvc env b k c p)
  unfolding mutate_pvc mutate_existing_pvc construct_pvc_spec
  Stable-mutate_pvc b k c p = search (keeps_rules, env_rules, Stable-event env stable) depth 20

  Stable-ensure_persistent_volume_claim :
      (b : Bool) (k : Kode) (c : KodeResourceConfig)
      → Keeps P (ensure_persistent_volume_claim env b k c)
  unfolding ensure_persistent_volume_claim
  Stable-ensure_persistent_volume_claim b k c =
      search
        (
          keeps_rules,
          env_rules,
          Stable-event env stable,
          Stable-mutate_pvc,
          stable.calling _ _ (claims _),
        )
        depth 20

  Keeps-apply_if :
      (b : Bool) (what : String) (m n : M (Option Error))
      → Keeps P m
      → Keeps P n
      → Keeps P (apply_if env b what m n)
  Keeps-apply_if true what m n km kn = search keeps_rules
  Keeps-apply_if false what m n km kn = kn

  pub Stable-apply_configuration :
      (c : KodeResourceConfig) (changes : Changes) → Keeps P (apply_configuration env c changes)
  unfolding apply_configuration
  Stable-apply_configuration c changes =
      search
        (
          keeps_rules, env_rules, Keeps-apply_if, Stable-ensure_secret, Stable-ensure_service,
          Stable-ensure_stateful_set, Stable-ensure_persistent_volume_claim,
        )
        depth 20

module _ (env : Env) {P : St → Type 0} where
  Keeps-require :
      (b : Bool) (message : String) (m : M (Option Error))
      → Keeps P m
      → Keeps P (require b message m)
  Keeps-require true message m km = km
  Keeps-require false message m km = search keeps_rules

  Keeps-step :
      (what : String) (m n : M (Option Error)) → Keeps P m → Keeps P n → Keeps P (step env what m n)
  Keeps-step what m n km kn = search keeps_rules

  Keeps-validate_pods : (c : KodeResourceConfig) (s : StatefulSet) → Keeps P (validate_pods c s)
  unfolding validate_pods
  Keeps-validate_pods c s = Keeps-if _ (pure _) _ (Keeps-pure _) (main (s.spec.template.containers))  --  keeps_rules) (main (s.spec.template.containers))
    where
      main :
          (cs : List Container)
          → Keeps P (elim cs [
            | [] ↦ pure (some (new_error "statefulset has no containers configured"))
            | main ∷ rest ↦
                (deref c.template.container_template_spec >>= λ t. pure (container_error c t main))
          ])
      main [] = search keeps_rules
      main (x ∷ xs) = search keeps_rules

  Keeps-validate_class :
      (a b : Option String) (m : M (Option Error)) → Keeps P m → Keeps P (validate_class env a b m)
  unfolding validate_class
  Keeps-validate_class none b m km = km
  Keeps-validate_class (some w) none m km = search keeps_rules
  Keeps-validate_class (some w) (some a) m km = search keeps_rules

  pub Keeps-validate_secret :
      (k : Kode) (c : KodeResourceConfig) → Keeps P (validate_secret env k c)
  unfolding validate_secret
  Keeps-validate_secret k c = search (keeps_rules, env_rules) depth 20

  Keeps-validate_service : (k : Kode) (c : KodeResourceConfig) → Keeps P (validate_service env k c)
  unfolding validate_service
  Keeps-validate_service k c = search (keeps_rules, env_rules) depth 20

  Keeps-validate_stateful_set :
      (k : Kode) (c : KodeResourceConfig) → Keeps P (validate_stateful_set env k c)
  unfolding validate_stateful_set
  Keeps-validate_stateful_set k c = search (keeps_rules, env_rules, Keeps-validate_pods) depth 20

  Keeps-validate_pvc : (k : Kode) (s : KodeStorageSpec) → Keeps P (validate_pvc env k s)
  unfolding validate_pvc
  Keeps-validate_pvc k s =
      search (keeps_rules, env_rules, Keeps-require, Keeps-validate_class) depth 20

  -- The validation only reads.
  pub Keeps-validate_configuration :
      (c : KodeResourceConfig) → Keeps P (validate_configuration env c)
  unfolding validate_configuration
  Keeps-validate_configuration c = Keeps-bind _ _ (search env_rules) (λ k.
      Keeps-step _ _ _ (Keeps-validate_secret k c) (
        Keeps-step _ _ _ (Keeps-validate_service k c) (
          Keeps-step _ _ _ (Keeps-validate_stateful_set k c) (
            Keeps-if_some (c.kode_spec.storage) _ _
              (λ s. Keeps-step _ _ _ (Keeps-validate_pvc k s) (search keeps_rules))
              (search keeps_rules)))))
