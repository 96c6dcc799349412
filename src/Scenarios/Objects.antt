-- ===== src/Scenarios/Objects.antt =====
-- The theorems on conditions, the status and the template manager at concrete inputs.
use kode_operator.Prelude.{insert, str_eq, lookup, ◌≡◌, refl, none, some, [], ◌∷◌, arith}
use kode_operator.Go.{ok, done, ◌>>=◌, ◌>>◌, pure, if_failed, if_err, if_some, gets, modify}
use kode_operator.Go.Keeps.{Yields}
use kode_operator.Condition.{
  Condition, ready, available, is_true, is_false, set_condition, get_condition, find_condition,
  delete_condition, type_name,
}
use kode_operator.Condition.Laws.{
  IsUnique, Entry, get_condition-set_condition, set_condition-IsUnique,
}
use kode_operator.Api.{CrossNamespaceObjectReference, Template, active}
use kode_operator.Env.{ask, St}
use kode_operator.Template.{
  validate_ref, get_cache_key, try_fetch, fetch_stored, fetch_fresh, fetch, fetch_template,
  fetch_cluster_container_template, fetch_entry_point, set_fetched, remember,
}
use kode_operator.Template.Cache.{fetch-fetch}
use kode_operator.Template.Keys.{SlashFree}
use kode_operator.Template.Named.{CacheNamed, Delivered, fetch-Delivered}
use kode_operator.Template.Errors.{Answered, try_fetch-Answered}
use kode_operator.Scenarios.World.{backoff, demo_spec, code_template, world, demo_state}

abbrev ready_condition : Condition
ready_condition = record {
  type = "Ready";
  status = is_true;
  reason = "ResourcesReady";
  message = "All Kode resources are ready";
  last_transition_time = 1;
}

get_condition-set_condition_example :
    Entry
      (record {
        type = type_name ready;
        status = is_false;
        reason = "r";
        message = "m";
        last_transition_time = 9;
      })
      (str_eq (type_name ready) (type_name ready))
      (get_condition ready (ready_condition ∷ []))
      (get_condition ready (set_condition 9 ready is_false "r" "m" (ready_condition ∷ [])))
get_condition-set_condition_example =
    get_condition-set_condition 9 ready ready is_false "r" "m" (ready_condition ∷ [])

none-IsUnique : IsUnique []
unfolding kode_operator.Condition.Laws.occurrences
none-IsUnique = record { once = λ t. omega arith }

set_condition-IsUnique_example : IsUnique (set_condition 9 ready is_false "r" "m" [])
set_condition-IsUnique_example = set_condition-IsUnique 9 ready is_false "r" "m" [] none-IsUnique

try_fetch-Answered_example : Yields Answered (try_fetch world demo_spec.template_ref)
try_fetch-Answered_example = try_fetch-Answered world demo_spec.template_ref

abbrev cluster_ref : CrossNamespaceObjectReference
cluster_ref = record { kind = "ClusterContainerTemplate"; name = "code"; namespace = none }

abbrev cluster_template : Template
cluster_template = record code_template { kind = "ClusterContainerTemplate" }

abbrev fetched_state : St
fetched_state = record (demo_state active) {
  cache = (get_cache_key cluster_ref, cluster_template) ∷ [];
  fetched = some cluster_template;
}

cluster_template_fetched :
    fetch world cluster_ref (demo_state active) ≡ (done (ok (some cluster_template)), fetched_state)
unfolding fetch fetch_fresh fetch_stored validate_ref get_cache_key try_fetch fetch_template
    fetch_cluster_container_template fetch_entry_point set_fetched remember lookup insert str_eq
    backoff ask modify gets if_err if_some if_failed pure ◌>>=◌ ◌>>◌
cluster_template_fetched = refl

fetch-fetch_example :
    fetch world cluster_ref fetched_state ≡ (done (ok (some cluster_template)), fetched_state)
fetch-fetch_example =
    fetch-fetch world cluster_ref (demo_state active) fetched_state cluster_template
      cluster_template_fetched

cluster_ref-SlashFree : SlashFree cluster_ref
cluster_ref-SlashFree = record { kind = refl; namespace = refl }

no_cache-CacheNamed : CacheNamed world (demo_state active).cache
unfolding lookup
no_cache-CacheNamed ref free t e = cc

fetch-Delivered_example : Delivered world cluster_ref (fetch world cluster_ref (demo_state active))
fetch-Delivered_example =
    fetch-Delivered world cluster_ref (demo_state active) cluster_ref-SlashFree no_cache-CacheNamed
