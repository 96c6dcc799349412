-- ===== src/EntryPoint/Safety.antt =====
-- What the EntryPoint controller leaves alone.
use kode_operator.Prelude.{
  ℕ, suc, String, Bool, true, false, Option, none, [], ◌∷◌, ◌≡◌, refl, is_some, ◌&&◌, if◌then◌else◌,
}
use kode_operator.Go.{Error, done, ◌>>=◌, pure}
use kode_operator.Go.Keeps.{Keeps, keeps_rules}
use kode_operator.Api.{Kode, same_phase, active}
use kode_operator.Gateway.{HttpRoute}
use kode_operator.Env.{
  Env, St, Call, Trace, EventType, event, patch_status, put_http_route, put_security_policy, get,
}
use kode_operator.Env.Frame.{env_rules}
use kode_operator.Common.{get_latest_entry_point, get_latest_kode}
use kode_operator.StateMachine.{stop}
use kode_operator.EntryPoint.Config.{EntryPointResourceConfig, is_https}
use kode_operator.EntryPoint.Frame.{
  Routable, Recordable, Routable-reconcile_kode, Routable-ensure_security_policy,
  Routable-ensure_http_routes,
}
use kode_operator.EntryPoint.Routes.{
  create_or_update_security_policy, security_policy_of, ensure_security_policy, ensure_http_routes,
}
use kode_operator.EntryPoint.Reconcile.{reconcile_kode, reconcile}

-- A measure of the trace that the controller's calls other than those for policies do not change.
record Indifferent (f : Trace → ℕ) : Type 0 where
  patches : (k : Kode) (t : Trace) → f (patch_status k ∷ t) ≡ f t
  records : (x : EventType) (reason : String) (t : Trace) → f (event x reason ∷ t) ≡ f t
  routes : (r : HttpRoute) (t : Trace) → f (put_http_route r ∷ t) ≡ f t

abbrev Same : (Trace → ℕ) → ℕ → St → Type 0
Same f n s = f s.calls ≡ n

module _ {f : Trace → ℕ} (i : Indifferent f) (n : ℕ) where
  Same-Routable : Routable (λ k. Unit) (Same f n)
  Same-Routable = record {
    ordinary = record {
      patching = λ k s h. cc (i.patches k s.calls, h);
      recording = λ x reason s h. cc (i.records x reason s.calls, h);
      conditioning = λ g s h. h;
      caching = λ cache fetched s h. h;
    };
    allowed = λ s h. tt;
    routing = λ c k domain route u e s h. cc (i.routes route s.calls, h);
    owning = λ g s h. h;
  }

  Same-Recordable : Recordable (Same f n)
  Same-Recordable = record { failing = λ message now s h. h; linking = λ url s h. h }

-- The calls but those that save the status of a Kode, write a route or a policy, or record an event.
unfoldable pub others : Trace → ℕ
others [] = 0
others (c ∷ cs) = let rest = others cs in if is_other c then suc rest else rest
  where
    is_other : Call → Bool
    is_other (patch_status k) = false
    is_other (event x reason) = false
    is_other (put_http_route r) = false
    is_other (put_security_policy p) = false
    is_other _ = true

others-Indifferent : Indifferent others
unfolding others
others-Indifferent = record {
  patches = λ k t. refl;
  records = λ x reason t. refl;
  routes = λ r t. refl;
}

module _ (env : Env) (n : ℕ) where
  Kept-reconcile_kode : Keeps (λ (s : St). others s.calls ≡ n) (reconcile_kode env)
  unfolding others
  Kept-reconcile_kode =
      Routable-reconcile_kode env (Same-Routable others-Indifferent n)
        (Same-Recordable others-Indifferent n)
        (Routable-ensure_security_policy env (Same-Routable others-Indifferent n) (λ p s h. h))

  Kept-reconcile :
      (name namespace : String)
      → Keeps (λ (s : St). others s.calls ≡ n) (reconcile env name namespace)
  unfolding reconcile get_latest_entry_point get_latest_kode
  Kept-reconcile name namespace = search (keeps_rules, env_rules, Kept-reconcile_kode) depth 20

-- A run of the EntryPoint controller makes no other calls that can change something than to save the status of a Kode, to write routes and
-- security policies, and to record events, whatever the API server answers: it deletes nothing, and changes no
-- finalizer and no child resource.
pub reconcile-others :
    (env : Env) (name namespace : String) (s : St)
    → others (reconcile env name namespace s).1.calls ≡ others s.calls
reconcile-others env name namespace s =
    (Kept-reconcile env (others s.calls) name namespace).at s refl

-- The controller leaves a Kode that is not in phase Active alone: no call is made and nothing in
-- memory changes.
pub reconcile_kode-idle :
    (env : Env) (s : St)
    → same_phase s.kode.status.phase active ≡ false
    → reconcile_kode env s ≡ (done (stop, none), s)
unfolding reconcile_kode ◌>>=◌ get pure
reconcile_kode-idle env s h = rw h refl

-- The security policies that are written.
unfoldable pub policies : Trace → ℕ
policies [] = 0
policies (c ∷ cs) = let rest = policies cs in if is_policy c then suc rest else rest
  where
    is_policy : Call → Bool
    is_policy (put_security_policy p) = true
    is_policy _ = false

policies-Indifferent : Indifferent policies
unfolding policies
policies-Indifferent = record {
  patches = λ k t. refl;
  records = λ x reason t. refl;
  routes = λ r t. refl;
}

module _ (env : Env) (c : EntryPointResourceConfig) (h : is_https c ≡ false) where
  ensure_security_policy-skips : (name : String) → ensure_security_policy env c name ≡ pure none
  unfolding ensure_security_policy
  ensure_security_policy-skips name = go (is_some (security_policy_of c.entry_point_spec))
    where
      go :
          (b : Bool)
          → (if b && is_https c then create_or_update_security_policy env c name else pure none)
            ≡ pure {S = St} {A = Option Error} none
      go true = rw h refl
      go false = refl

  Same-skips :
      (n : ℕ) (name : String)
      → Keeps (λ (s : St). policies s.calls ≡ n) (ensure_security_policy env c name)
  Same-skips n name = rw ensure_security_policy-skips (search keeps_rules)

  -- ensureHTTPRoutes writes no security policy unless the protocol is https, whatever the API server answers.
  pub ensure_http_routes-insecure :
      (domain : String) (s : St)
      → policies (ensure_http_routes env c domain s).1.calls ≡ policies s.calls
  ensure_http_routes-insecure domain s =
      (Routable-ensure_http_routes env (Same-Routable policies-Indifferent (policies s.calls)) c
          (Same-skips (policies s.calls)) domain).at
        s refl
