-- ===== src/Env/Store.antt =====
-- The objects that the calls so far have written, if all are taken: what an API server without other clients holds. CreateOrPatch
-- gives the mutate function the object that is there, or one with the name and the labels that it is handed. All objects
-- are in the one namespace of the Kode.
use kode_operator.Prelude.{String, str_eq, Option, none, some, [], ◌∷◌, ◌&&◌, if◌then◌else◌}
use kode_operator.Objects.{
  Labels, Secret, Service, StatefulSet, secret, service, stateful_set, same_kind,
}
use kode_operator.Env.{Trace, delete, put_secret, put_service, put_stateful_set}

-- The objects that are created of these labels
abbrev pub blank_secret : Labels → Secret
blank_secret l = record { labels = l; data_ = [] }

abbrev pub blank_service : Labels → Service
blank_service l = record { labels = l; selector = []; ports = [] }

abbrev pub blank_stateful_set : Labels → StatefulSet
blank_stateful_set l = record {
  labels = l;
  spec = record {
    replicas = none;
    match_labels = [];
    service_name = "";
    template = record {
      labels = [];
      annotations = [];
      init_containers = [];
      containers = [];
      volumes = [];
      runtime_class_name = none;
    };
  };
  ready_replicas = 0;
}

unfoldable pub stored_secret : String → Trace → Option Secret
unfolding same_kind
stored_secret name [] = none
stored_secret name (put_secret n l f ∷ t) =
    let rest = stored_secret name t in
    if str_eq n name then some (f (elim rest [ none ↦ blank_secret l | some x ↦ x ])) else rest
stored_secret name (delete r ∷ t) =
    let rest = stored_secret name t in
    if same_kind r.kind secret && str_eq r.name name then none else rest
stored_secret name (_ ∷ t) = stored_secret name t

unfoldable pub stored_service : String → Trace → Option Service
unfolding same_kind
stored_service name [] = none
stored_service name (put_service n l f ∷ t) =
    let rest = stored_service name t in
    if str_eq n name then some (f (elim rest [ none ↦ blank_service l | some x ↦ x ])) else rest
stored_service name (delete r ∷ t) =
    let rest = stored_service name t in
    if same_kind r.kind service && str_eq r.name name then none else rest
stored_service name (_ ∷ t) = stored_service name t

unfoldable pub stored_stateful_set : String → Trace → Option StatefulSet
unfolding same_kind
stored_stateful_set name [] = none
stored_stateful_set name (put_stateful_set n l f ∷ t) =
    let rest = stored_stateful_set name t in
    if str_eq n name
    then some (f (elim rest [ none ↦ blank_stateful_set l | some x ↦ x ]))
    else rest
stored_stateful_set name (delete r ∷ t) =
    let rest = stored_stateful_set name t in
    if same_kind r.kind stateful_set && str_eq r.name name then none else rest
stored_stateful_set name (_ ∷ t) = stored_stateful_set name t
