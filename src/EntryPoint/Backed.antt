-- ===== src/EntryPoint/Backed.antt =====
-- The routes that a run of the EntryPoint controller hands to CreateOrPatch.
use kode_operator.Prelude.{
  ℕ, String, ◌<>◌, ◌==◌, ◌<◌, ◌≡◌, refl, false, [], ◌∷◌, arith, inl, inr, Bool-cases,
}
use kode_operator.Go.{ok}
use kode_operator.Api.{Kode}
use kode_operator.Api.Names.{get_service_name}
use kode_operator.Gateway.{HttpRoute}
use kode_operator.Env.{Env, St, Trace, put_http_route}
use kode_operator.KodeObject.{get_port}
use kode_operator.EntryPoint.Config.{EntryPointResourceConfig}
use kode_operator.EntryPoint.Routes.{
  construct_http_route, construct_route_name, construct_http_route_rules, construct_backend_rule,
}
use kode_operator.EntryPoint.Frame.{
  Routable, Recordable, Routable-reconcile_kode, Routable-ensure_security_policy,
}
use kode_operator.EntryPoint.Reconcile.{reconcile_kode}

-- All requests for the route's host go to the Service of the Kode called `name`, at a port that is set.
pub record RoutesTo (name : String) (port : ℕ) (r : HttpRoute) : Type 0 where
  pub named : r.name ≡ name
  pub ruled :
      r.rules
      ≡ record {
        filters = [];
        matches = record { type = "PathPrefix"; value = "/" } ∷ [];
        backend_refs = record { kind = "Service"; name = name <> "-svc"; port = port } ∷ [];
      }
        ∷ []
  pub open_port : 0 < port

-- Every route that the trace hands to CreateOrPatch.
abbrev pub Backed : String → ℕ → Trace → Type 0
Backed name port [] = Unit
Backed name port (put_http_route r ∷ cs) = RoutesTo name port r × Backed name port cs
Backed name port (_ ∷ cs) = Backed name port cs

module _ (name : String) (port : ℕ) where
  -- What is known of the Kode during the run.
  abbrev Known : Kode → Type 0
  Known k = (k.name ≡ name) × (get_port k ≡ port)

  abbrev Routed : St → Type 0
  Routed s = Known s.kode × Backed name port s.calls

  constructed-RoutesTo :
      (c : EntryPointResourceConfig) (k : Kode) (domain : String) (r : HttpRoute)
      → Known k
      → construct_http_route c k false domain ≡ ok r
      → RoutesTo name port r
  unfolding construct_http_route construct_route_name construct_http_route_rules
      construct_backend_rule get_service_name
  constructed-RoutesTo c k domain r (n, p) e = elim (Bool-cases (get_port k == 0)) [
    | inl b ↦ grind arith
    | inr b ↦ record { named = grind arith; ruled = grind arith; open_port = grind arith }
  ]

  Routed-Routable : Routable Known Routed
  Routed-Routable = record {
    ordinary = record {
      patching = λ k s h. h;
      recording = λ t reason s h. h;
      conditioning = λ f s h. h;
      caching = λ cache fetched s h. h;
    };
    allowed = λ s h. h.0;
    routing =
        λ c k domain route known e s h. (h.0, (constructed-RoutesTo c k domain route known e, h.1));
    owning = λ f s h. h;
  }

  Routed-Recordable : Recordable Routed
  Routed-Recordable = record { failing = λ message now s h. h; linking = λ url s h. h }

-- Every route that the EntryPoint controller hands to CreateOrPatch for a Kode, which is created where there is none of
-- its name and is not what an existing one becomes, has the Kode's name, and sends all paths to the
-- Kode's Service, at the port in the Kode's status, which is not zero.
pub reconcile_kode-Backed :
    (env : Env) (s : St)
    → Backed s.kode.name (get_port s.kode) s.calls
    → Backed s.kode.name (get_port s.kode) (reconcile_kode env s).1.calls
reconcile_kode-Backed env s h =
    ((Routable-reconcile_kode env (Routed-Routable n p) (Routed-Recordable n p)
        (Routable-ensure_security_policy env (Routed-Routable n p) (λ q s h. h))).at
      s ((refl, refl), h)).1
  where
    n : String
    n = s.kode.name

    p : ℕ
    p = get_port s.kode
