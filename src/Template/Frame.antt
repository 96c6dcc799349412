-- ===== src/Template/Frame.antt =====
-- Fetch changes nothing but the cache and the captured variable, so it keeps what these do not matter to.
use kode_operator.Prelude.{String, Option, none, some, List, insert}
use kode_operator.Go.{modify, pure}
use kode_operator.Go.Keeps.{Keeps, keeps_rules}
use kode_operator.Api.{CrossNamespaceObjectReference, Template}
use kode_operator.Env.{Env, St}
use kode_operator.Env.Frame.{env_rules}
use kode_operator.Template.{
  fetch_container_template, fetch_cluster_container_template, fetch_entry_point, fetch_template,
  try_fetch, fetch_stored, fetch_fresh, fetch, set_fetched, remember,
}

module _ (env : Env) {P : St → Type 0} where
  pub Keeps-fetch_template :
      (ref : CrossNamespaceObjectReference) → Keeps P (fetch_template env ref)
  unfolding fetch_template fetch_container_template fetch_cluster_container_template
      fetch_entry_point
  Keeps-fetch_template ref = search (keeps_rules, env_rules) depth 20

module _ (env : Env) {P : St → Type 0}
    (caching : (cache : List (String × Template)) (fetched : Option Template) (s : St)
      → P s
      → P (record s { cache = cache; fetched = fetched })) where
  Keeps-set_fetched : (t : Option Template) → Keeps P (set_fetched env t)
  unfolding set_fetched modify
  Keeps-set_fetched t = record { at = λ s h. caching s.cache t s h }

  Keeps-remember : (key : String) (t : Option Template) → Keeps P (remember env key t)
  unfolding remember modify pure
  Keeps-remember key none = record { at = λ s h. h }
  Keeps-remember key (some t) = record { at = λ s h. caching (insert key t s.cache) s.fetched s h }

  Keeps-try_fetch : (ref : CrossNamespaceObjectReference) → Keeps P (try_fetch env ref)
  unfolding try_fetch
  Keeps-try_fetch ref =
      search (keeps_rules, env_rules, Keeps-fetch_template env, Keeps-set_fetched) depth 20

  pub Keeps-fetch : (ref : CrossNamespaceObjectReference) → Keeps P (fetch env ref)
  unfolding fetch fetch_fresh fetch_stored
  Keeps-fetch ref =
      search (keeps_rules, env_rules, Keeps-try_fetch, Keeps-set_fetched, Keeps-remember) depth 20
