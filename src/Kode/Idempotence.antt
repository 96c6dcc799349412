-- ===== src/Kode/Idempotence.antt =====
-- The objects that the ensure functions write are not taken for changed, and pass the validation.
use kode_operator.Prelude.{
  ℕ, str_eq, str_eq_refl, lookup, all, any, true, false, none, ◌≡◌, refl, ◌==◌, arith,
}
use kode_operator.Go.{ok, done, ◌>>=◌, pure, if_failed}
use kode_operator.Api.{Kode, CredentialsSpec, Template}
use kode_operator.Api.Names.{get_secret_name, get_service_name}
use kode_operator.Objects.{Secret}
use kode_operator.Env.{Env, St, get, ask}
use kode_operator.Kode.Config.{
  KodeResourceConfig, credentials, create_labels, init_kode_resources_config,
}
use kode_operator.Kode.Checks.{has_port}
use kode_operator.Kode.Ensure.{construct_secret_data, construct_service}
use kode_operator.Kode.Changes.{
  has_required_labels, same_map, same_list, same_port, detect_secret_changes,
  detect_service_changes,
}
use kode_operator.Kode.Validate.{service_error, validate_service}

username≢password : str_eq "username" "password" ≡ false
unfolding str_eq
username≢password = refl

pub ==-refl : (n : ℕ) → (n == n) ≡ true
==-refl n = ground arith

pub same_map-secret :
    (c : CredentialsSpec) → same_map (construct_secret_data c) (construct_secret_data c) ≡ true
unfolding same_map has_required_labels construct_secret_data all lookup
same_map-secret c = simp (str_eq_refl, username≢password) refl

pub has_required_labels-labels :
    (k : Kode) (t : Template) → has_required_labels (create_labels k t) (create_labels k t) ≡ true
unfolding has_required_labels create_labels all lookup str_eq
has_required_labels-labels k t = simp str_eq_refl refl

-- A secret whose data are those that ensureSecret writes is not taken for changed.
detect_secret_changes-written :
    (env : Env) (c : KodeResourceConfig) (s : St) (x : Secret)
    → env.get_secret s.calls (get_secret_name s.kode) s.kode.namespace
      ≡ ok (record x { data_ = construct_secret_data (credentials s.kode) })
    → detect_secret_changes env c s ≡ (done (ok false), s)
unfolding detect_secret_changes ◌>>=◌ get ask if_failed pure
detect_secret_changes-written env c s x h = rw (h, same_map-secret) refl

-- A service that is what ensureService writes for a Kode and its template is not taken for
-- changed, and validateService has nothing to say against it.
detect_service_changes-written :
    (env : Env) (t : Template) (s : St)
    → env.get_service s.calls (get_service_name s.kode) s.kode.namespace
      ≡ ok (construct_service (init_kode_resources_config s.kode t))
    → (detect_service_changes env (init_kode_resources_config s.kode t) s ≡ (done (ok false), s))
      × (validate_service env s.kode (init_kode_resources_config s.kode t) s ≡ (done none, s))
unfolding detect_service_changes validate_service service_error ◌>>=◌ get ask if_failed pure
    same_map same_list same_port construct_service init_kode_resources_config has_port any
detect_service_changes-written env t s h = (
  rw h (simp (has_required_labels-labels, str_eq_refl, ==-refl) refl),
  rw h (simp (has_required_labels-labels, ==-refl) refl),
)
