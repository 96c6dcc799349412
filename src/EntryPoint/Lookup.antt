-- ===== src/EntryPoint/Lookup.antt =====
-- The search for the EntryPoint of a Kode changes nothing but the cache of the template manager.
use kode_operator.Prelude.{String, Option, none, some, List, ◌≡◌, refl}
use kode_operator.Go.Keeps.{Keeps, keeps_rules}
use kode_operator.Api.{CrossNamespaceObjectReference, Template}
use kode_operator.Env.{Env, St}
use kode_operator.Env.Frame.{env_rules}
use kode_operator.Common.{get_latest_entry_point}
use kode_operator.Template.Frame.{Keeps-fetch}
use kode_operator.EntryPoint.Reconcile.{find_latest, find_from, find_entry_point_for_kode}

module _ (env : Env) {P : St → Type 0}
    (caching : (cache : List (String × Template)) (fetched : Option Template) (s : St)
      → P s
      → P (record s { cache = cache; fetched = fetched })) where
  Keeps-find_latest : (ref : Option CrossNamespaceObjectReference) → Keeps P (find_latest env ref)
  unfolding find_latest get_latest_entry_point
  Keeps-find_latest none = search keeps_rules
  Keeps-find_latest (some ref) = search (keeps_rules, env_rules) depth 20

  Keeps-find_from : (t : Template) → Keeps P (find_from env t)
  unfolding find_from
  Keeps-find_from t = search (keeps_rules, Keeps-find_latest) depth 20

  pub Keeps-find_entry_point_for_kode : Keeps P (find_entry_point_for_kode env)
  unfolding find_entry_point_for_kode
  Keeps-find_entry_point_for_kode =
      search (keeps_rules, env_rules, Keeps-fetch env caching, Keeps-find_from) depth 20

-- The Kode in memory and the calls made so far are the same afterwards.
pub find_entry_point_for_kode-same :
    (env : Env) (s : St)
    → ((find_entry_point_for_kode env s).1.kode ≡ s.kode)
      × ((find_entry_point_for_kode env s).1.calls ≡ s.calls)
find_entry_point_for_kode-same env s =
    (Keeps-find_entry_point_for_kode env {P = λ t. (t.kode ≡ s.kode) × (t.calls ≡ s.calls)}
        (λ cache fetched t h. h)).at
      s (refl, refl)
