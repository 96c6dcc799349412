-- ===== src/EntryPoint/Publishing.antt =====
-- A run of the EntryPoint controller that succeeds.
use kode_operator.Prelude.{
  ℕ, suc, String, str_eq, str_eq_refl, Bool, true, false, Option, none, some, [], ◌∷◌, ◌≡◌, refl,
  ap, ◌∙◌, ◌==◌, false≢true, subst, if◌then◌else◌,
}
use kode_operator.Go.{
  Error, Result, ok, err, done, ◌>>=◌, ◌>>◌, pure, if_failed, if_err, if_some, modify,
}
use kode_operator.Go.Succeeds.{
  Succeeds, Succeeds-pure, Succeeds-Keeps, Succeeds-bind, Succeeds-then,
}
use kode_operator.Condition.{ConditionType, ConditionStatus}
use kode_operator.Api.{EntryPoint, SecurityPolicySpec, ExtAuth, same_phase, active}
use kode_operator.Api.Names.{KodeAddress, generate_kode_url}
use kode_operator.Gateway.{HttpRoute, SecurityPolicy}
use kode_operator.Env.{
  Env, St, M, Call, Trace, put_http_route, put_security_policy, OperationResult, operation_created,
  operation_updated, operation_none, operation_other, call, get, ask, change, change_entry_point,
  record_event,
}
use kode_operator.KodeObject.{get_port, set_status, set_condition, update_status}
use kode_operator.KodeObject.Saved.{last_saved, update_status-Saves}
use kode_operator.EntryPoint.Frame.{Ordinary, Ordinary-update_status, Ordinary-set_condition}
use kode_operator.Kode.Deletion.{found}
use kode_operator.StateMachine.{stop}
use kode_operator.EntryPoint.Config.{
  EntryPointResourceConfig, is_https, init_entry_point_resources_config,
}
use kode_operator.EntryPoint.Routes.{
  security_policy_of, configure_ext_auth, policy_for, construct_http_route,
  construct_security_policy, record_operation, create_or_update_route,
  create_or_update_security_policy, ensure_security_policy, report_routes, ensure_constructed,
  ensure_http_routes,
}
use kode_operator.EntryPoint.Lookup.{find_entry_point_for_kode-same}
use kode_operator.EntryPoint.Urls.{generate_kode_url-full}
use kode_operator.EntryPoint.Reconcile.{
  store_url, publish, route_through, reconcile_kode, find_entry_point_for_kode,
}

-- The calls of CreateOrPatch for a route.
unfoldable pub routes : Trace → ℕ
routes [] = 0
routes (c ∷ cs) = let rest = routes cs in if is_route c then suc rest else rest
  where
    is_route : Call → Bool
    is_route (put_http_route r) = true
    is_route _ = false

-- The URL in the status of the Kode that was sent last
abbrev pub saved_url : Trace → Option String
saved_url t = elim (last_saved t) [ none ↦ none | some st ↦ some st.kode_url ]

-- The API server finds the Kode, and takes every route, policy and status.
pub record Accepts (env : Env) : Type 0 where
  pub knows : (t : Trace) (name namespace : String) → found (env.get_kode t name namespace) ≡ true
  pub saves : (x : St) → (update_status env x).0 ≡ done none
  pub takes_routes : (t : Trace) (r : HttpRoute) → found (env.put_http_route t r) ≡ true
  pub takes_policies : (t : Trace) (p : SecurityPolicy) → found (env.put_security_policy t p) ≡ true

module _ (name : String) where
  -- `n` routes are written and the Kode called `name` has the URL `url` and a port.
  abbrev At : ℕ → String → St → Type 0
  At n url s =
      (routes s.calls ≡ n)
      × (s.kode.status.kode_url ≡ url)
      × ((get_port s.kode == 0) ≡ false)
      × (s.kode.name ≡ name)

  At-Ordinary : {n : ℕ} {url : String} → Ordinary (At n url)
  unfolding routes
  At-Ordinary = record {
    patching = λ k s h. h;
    recording = λ t reason s h. h;
    conditioning = λ f s h. h;
    caching = λ cache fetched s h. h;
  }

  module _ (env : Env) (accepts : Accepts env) where
    set_condition-Succeeds :
        (n : ℕ) (url : String) (t : ConditionType) (status : ConditionStatus)
        (reason message : String)
        → Succeeds (At n url) (At n url) (set_condition env t status reason message) tt
    unfolding set_condition ◌>>=◌ ask change
    set_condition-Succeeds n url t status reason message =
        Succeeds-Keeps _ _ (λ s. refl)
          (Ordinary-set_condition env At-Ordinary t status reason message)

    update_status-Succeeds :
        (n : ℕ) (url : String) → Succeeds (At n url) (At n url) (update_status env) none
    update_status-Succeeds n url =
        Succeeds-Keeps _ _ accepts.saves (Ordinary-update_status env At-Ordinary)

    -- The save after which the URL is the one that was sent last.
    update_status-Saved :
        (n : ℕ) (url : String)
        → Succeeds
            (At n url)
            (λ s. At n url s × (saved_url s.calls ≡ some url))
            (update_status env)
            none
    update_status-Saved n url = record {
      at = λ s h.
          let (e, i) = (update_status-Succeeds n url).at s h in
          let saved = update_status-Saves env s.kode (λ t. accepts.knows t _ _) s refl in
          (
            e,
            (
              i,
              ap (λ o. elim o [ none ↦ none | some st ↦ some st.kode_url ]) saved.last
                  ∙ ap some (h.1),
            ),
          );
    }

    record_operation-Succeeds :
        (n : ℕ) (url : String) (o : OperationResult)
        → Succeeds (At n url) (At n url) (record_operation o >> pure {A = Option Error} none) none
    unfolding record_operation ◌>>◌ ◌>>=◌ pure record_event modify routes
    record_operation-Succeeds n url operation_created = record { at = λ s h. (refl, h) }
    record_operation-Succeeds n url operation_updated = record { at = λ s h. (refl, h) }
    record_operation-Succeeds n url operation_none = record { at = λ s h. (refl, h) }
    record_operation-Succeeds n url operation_other = record { at = λ s h. (refl, h) }

    -- The answer of CreateOrPatch, which is not an error.
    answer-Succeeds :
        (n : ℕ) (url : String) (r : Result OperationResult) (f : Error → M (Option Error))
        → found r ≡ true
        → Succeeds (At n url) (At n url) (if_failed r f (λ o. record_operation o >> pure none)) none
    unfolding if_failed
    answer-Succeeds n url (ok o) f h = record_operation-Succeeds n url o
    answer-Succeeds n url (err e) f h = elim (false≢true h) [ ]

    create_or_update_route-Succeeds :
        (n : ℕ) (url : String) (route : HttpRoute)
        → Succeeds (At n url) (At (suc n) url) (create_or_update_route env route) none
    unfolding create_or_update_route ◌>>=◌ call routes
    create_or_update_route-Succeeds n url route = record {
      at = λ s h.
          (answer-Succeeds (suc n) url (env.put_http_route s.calls route) _
              (accepts.takes_routes s.calls route)).at
            _ (cc (h.0), h.1, h.2, h.3);
    }

    put_policy-Succeeds :
        (n : ℕ) (url : String) (p : SecurityPolicy) (f : Error → M (Option Error))
        → Succeeds
            (At n url)
            (At n url)
            (call (put_security_policy p) (λ t. env.put_security_policy t p) >>= λ r.
              if_failed r f (λ o. record_operation o >> pure none))
            none
    unfolding ◌>>=◌ call routes
    put_policy-Succeeds n url p f = record {
      at = λ s h.
          (answer-Succeeds n url (env.put_security_policy s.calls p) f
              (accepts.takes_policies s.calls p)).at
            _ h;
    }

    policy_with-Succeeds :
        (n : ℕ) (url : String) (c : EntryPointResourceConfig) (route_name : String)
        (p : SecurityPolicySpec) (x : Option ExtAuth)
        → security_policy_of c.entry_point_spec ≡ some p
        → p.ext_auth ≡ x
        → Succeeds (At n url) (At n url) (create_or_update_security_policy env c route_name) none
    unfolding create_or_update_security_policy construct_security_policy if_some if_failed ◌>>=◌
        ◌>>◌ pure change_entry_point
    policy_with-Succeeds n url c route_name p none e d = record {
      at = λ s h. rw (e, d) ((put_policy-Succeeds n url (policy_for c route_name none) _).at s h);
    }
    policy_with-Succeeds n url c route_name p (some x) e d = record {
      at = λ s h.
          rw (e, d)
            ((put_policy-Succeeds n url (policy_for c route_name (some (configure_ext_auth c x)))
                _).at
              _ h);
    }

    ensure_security_policy-Succeeds :
        (n : ℕ) (url : String) (c : EntryPointResourceConfig) (route_name : String)
        → Succeeds (At n url) (At n url) (ensure_security_policy env c route_name) none
    unfolding ensure_security_policy
    ensure_security_policy-Succeeds n url c route_name =
        go (security_policy_of c.entry_point_spec) refl (is_https c) refl
      where
        go :
            (x : Option SecurityPolicySpec)
            → security_policy_of c.entry_point_spec ≡ x
            → (b : Bool) → is_https c ≡ b
            → Succeeds (At n url) (At n url) (ensure_security_policy env c route_name) none
        go none e b d = rw e (Succeeds-pure none)
        go (some p) e false d = rw (e, d) (Succeeds-pure none)
        go (some p) e true d = rw (e, d) (policy_with-Succeeds n url c route_name p _ e refl)

    report_routes-Succeeds :
        (n : ℕ) (url : String) → Succeeds (At n url) (At n url) (report_routes env) none
    unfolding report_routes
    report_routes-Succeeds n url = Succeeds-then _ _ _ (set_condition-Succeeds n url _ _ _ _) (
        Succeeds-then _ _ _ (set_condition-Succeeds n url _ _ _ _) (
          Succeeds-then _ _ _ (set_condition-Succeeds n url _ _ _ _)
            (update_status-Succeeds n url)))

    ensure_constructed-Succeeds :
        (n : ℕ) (url : String) (c : EntryPointResourceConfig) (route : HttpRoute)
        → Succeeds (At n url) (At (suc n) url) (ensure_constructed env c route) none
    unfolding ensure_constructed if_err
    ensure_constructed-Succeeds n url c route =
        Succeeds-bind _ _ _ _ (create_or_update_route-Succeeds n url route) (
          Succeeds-bind _ _ _ _ (ensure_security_policy-Succeeds (suc n) url c route.name)
            (report_routes-Succeeds (suc n) url))

    ensure_http_routes-Succeeds :
        (n : ℕ) (url : String) (c : EntryPointResourceConfig) (domain : String)
        → Succeeds (At n url) (At (suc n) url) (ensure_http_routes env c domain) none
    unfolding ensure_http_routes ◌>>=◌ get construct_http_route if_failed
    ensure_http_routes-Succeeds n url c domain = record {
      at = λ s h. rw (h.2) ((ensure_constructed-Succeeds n url c _).at s h);
    }

    change_url-Succeeds :
        (n : ℕ) (old url : String)
        → Succeeds (At n old) (At n url) (change (set_status (λ s. record s { kode_url = url }))) tt
    unfolding change
    change_url-Succeeds n old url = record { at = λ s h. (refl, (h.0, refl, h.2, h.3)) }

    store_url-Succeeds :
        (n : ℕ) (old url : String)
        → str_eq url "" ≡ false
        → Succeeds
            (At n old)
            (λ s. At n url s × (saved_url s.calls ≡ some url))
            (store_url env url)
            (stop, none)
    unfolding store_url if_err
    store_url-Succeeds n old url e = rw e (
        Succeeds-then _ _ _ (change_url-Succeeds n old url) (
          Succeeds-then _ _ _ (set_condition-Succeeds n url _ _ _ _)
            (Succeeds-bind _ _ _ _ (update_status-Saved n url) (Succeeds-pure _))))

    publish-Succeeds :
        (n : ℕ) (old : String) (c : EntryPointResourceConfig) (a : KodeAddress)
        → str_eq old a.url ≡ false
        → str_eq a.url "" ≡ false
        → Succeeds
            (At n old)
            (λ s. At (suc n) a.url s × (saved_url s.calls ≡ some a.url))
            (publish env c a)
            (stop, none)
    unfolding publish ◌>>=◌ get if_err store_url
    publish-Succeeds n old c a new full = record {
      at = λ s h.
          let new' : str_eq s.kode.status.kode_url a.url ≡ false = rw (h.1) new in
          rw (new', h.2)
            ((Succeeds-bind _ _ _ _ (ensure_http_routes-Succeeds n old c a.domain)
                (store_url-Succeeds (suc n) old a.url full)).at
              s h);
    }

-- What a run finds: the EntryPoint, its configuration, and the address that it gives the Kode.
pub record Finds (env : Env) (s : St) (a : KodeAddress) : Type 0 where
  pub is_active : same_phase s.kode.status.phase active ≡ true
  pub entry_point : EntryPoint
  pub config : EntryPointResourceConfig
  pub left : St
  pub finds : find_entry_point_for_kode env s ≡ (done (ok entry_point), left)
  pub configured : (x : St) → init_entry_point_resources_config entry_point x ≡ (done config, x)
  pub generated :
      generate_kode_url entry_point.spec.routing_type entry_point.spec.base_domain s.kode.name
        config.protocol
      ≡ ok a

module _ (env : Env) (s : St) (a : KodeAddress) (f : Finds env s a) where
  -- The state in which the URL is compared.
  abbrev ready_state : St
  ready_state = record (f.left) { entry_point = f.entry_point }

  left-same : (f.left.kode ≡ s.kode) × (f.left.calls ≡ s.calls)
  left-same =
      subst (λ r. (r.1.kode ≡ s.kode) × (r.1.calls ≡ s.calls)) f.finds
        (find_entry_point_for_kode-same env s)

  reconcile_kode-Finds : reconcile_kode env s ≡ publish env f.config a ready_state
  unfolding reconcile_kode route_through ◌>>=◌ ◌>>◌ get change_entry_point if_failed
  reconcile_kode-Finds =
      rw (f.is_active, f.finds, f.configured ready_state, left-same.0, f.generated) refl

  -- The run returns no error and asks for no other run. It has called CreateOrPatch for one route, the Kode has the URL, and
  -- the status that was sent last has it too.
  abbrev pub Published : Type 0
  Published =
      ((reconcile_kode env s).0 ≡ done (stop, none))
      × (routes (reconcile_kode env s).1.calls ≡ suc (routes s.calls))
      × ((reconcile_kode env s).1.kode.status.kode_url ≡ a.url)
      × (saved_url (reconcile_kode env s).1.calls ≡ some a.url)

-- If an active Kode with a port has another URL than the one that its EntryPoint gives it, and the API server finds the Kode and
-- takes the route, the policy and the status, then a run of the EntryPoint controller ends without an error: CreateOrPatch
-- is called for one route, and the Kode has the new URL, in memory and in the status that was saved last.
pub reconcile_kode-Published :
    (env : Env) (s : St) (a : KodeAddress) (f : Finds env s a)
    → Accepts env
    → str_eq s.kode.status.kode_url a.url ≡ false
    → (get_port s.kode == 0) ≡ false
    → Published env s a f
reconcile_kode-Published env s a f accepts new port = rw (reconcile_kode-Finds env s a f) (
    let same = left-same env s a f in
    let r =
      (publish-Succeeds s.kode.name env accepts (routes s.calls) s.kode.status.kode_url f.config a
          new (generate_kode_url-full _ _ _ _ a f.generated)).at
        (ready_state env s a f) (cc (same.1), cc (same.0), rw (same.0) port, cc (same.0)) in
    (r.0, r.1.0.0, r.1.0.1, r.1.1))

-- A Kode that has the URL that its EntryPoint gives it is left alone: the run makes no call that can change
-- something, asks for no other run, and the Kode in memory stays the same.
pub reconcile_kode-settled :
    (env : Env) (s : St) (a : KodeAddress)
    → Finds env s a
    → s.kode.status.kode_url ≡ a.url
    → ((reconcile_kode env s).0 ≡ done (stop, none))
      × ((reconcile_kode env s).1.calls ≡ s.calls)
      × ((reconcile_kode env s).1.kode ≡ s.kode)
unfolding publish ◌>>=◌ get pure
reconcile_kode-settled env s a f e =
    let same = left-same env s a f in
    let e' : str_eq f.left.kode.status.kode_url a.url ≡ true = rw (same.0, e) (str_eq_refl a.url) in
    rw (reconcile_kode-Finds env s a f, e') (refl, same.1, same.0)
