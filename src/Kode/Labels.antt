-- ===== src/Kode/Labels.antt =====
-- A Kode whose secret does not carry the Kode's labels.
use kode_operator.Prelude.{
  String, lookup, all, Bool, true, false, Option, none, some, is_some, is_none, ◌≡◌, refl, ◌∙◌,
  arith, false≢true,
}
use kode_operator.Go.{Error, Result, ok, err, wrap, ◌>>=◌, ◌>>◌, pure, if_err, if_failed, when}
use kode_operator.Go.Keeps.{Keeps, Yields-pure, Holds, keeps_rules, yields_rules}
use kode_operator.Go.Ends.{
  Ends, Ends-Yields, Ends-bind_of, Ends-refused, Ends-bind, Ends-then, Ends-if_failed, Ends-if_err,
}
use kode_operator.Api.{Kode, CredentialsSpec, Template}
use kode_operator.Api.Names.{get_secret_name}
use kode_operator.Objects.{Labels, Secret}
use kode_operator.Env.{Env, St, M, Trace, ask, record_event, normal, warning}
use kode_operator.Env.Frame.{Ends-get_bind}
use kode_operator.StateMachine.{Next}
use kode_operator.Kode.Config.{init_kode_resources_config, create_labels}
use kode_operator.Kode.Ensure.{set_credentials}
use kode_operator.Kode.Changes.{has_required_labels}
use kode_operator.Kode.Validate.{secret_error, validate_secret, validate_configuration}
use kode_operator.Kode.Errors.{handle_reconcile_error}
use kode_operator.Kode.Frame.Reads.{Stable-event, Stable-fetch_templates_with_retry}
use kode_operator.Kode.Frame.Writes.{
  Stable-detect_changes, Stable-apply_configuration, Keeps-validate_secret,
  Keeps-validate_configuration,
}
use kode_operator.Kode.Frame.{
  Edit, edit, to_runtime, to_credentials, to_error, to_condition, Stable,
}
use kode_operator.Kode.Handlers.Create.{handle_configuring_state}

-- The label by which a Kode's objects name it.
abbrev pub name_label : String
name_label = "kode.jacero.io/name"

-- The answer is no secret with this label.
abbrev pub unlabelled : Result Secret → Bool
unlabelled (ok s) = is_none (lookup name_label s.labels)
unlabelled (err e) = true

-- The secret of the Kode in memory is the one of this name.
abbrev pub Of : String → String → St → Type 0
Of name namespace s = (get_secret_name s.kode ≡ name) × (s.kode.namespace ≡ namespace)

-- The handler returns an error.
abbrev pub Fails : Next → Type 0
Fails (p, r, e) = is_some e ≡ true

get_secret_name-set_credentials :
    (c : String × String) (k : Kode) → get_secret_name (set_credentials c k) ≡ get_secret_name k
unfolding set_credentials get_secret_name
get_secret_name-set_credentials (username, password) k = go k.spec.credentials
  where
    go :
        (c : Option CredentialsSpec)
        → get_secret_name (
            set_credentials
              (username, password)
              (record k { spec = record (k.spec) { credentials = c } }))
          ≡ get_secret_name (record k { spec = record (k.spec) { credentials = c } })
    go none = refl
    go (some c) = refl

Of-Stable : (n ns : String) → Stable (Of n ns)
unfolding set_credentials get_secret_name
Of-Stable n ns = record {
  calling = λ c s m h. h;
  editing = edits;
  caching = λ cache fetched s h. h;
}
  where
    edits : (e : Edit) (s : St) → Of n ns s → Of n ns (record s { kode = edit e s.kode })
    edits (to_runtime r) s h = h
    edits (to_credentials c) s h = (get_secret_name-set_credentials c s.kode ∙ h.0, h.1)
    edits (to_error e t) s h = h
    edits (to_condition n t st r m) s h = h

has_required_labels-unlabelled :
    (k : Kode) (t : Template) (labels : Labels)
    → lookup name_label labels ≡ none
    → has_required_labels labels (create_labels k t) ≡ false
unfolding has_required_labels create_labels all
has_required_labels-unlabelled k t labels h = rw h (ground arith)

none_of : {A : Type 0} (o : Option A) → is_none o ≡ true → o ≡ none
none_of none h = refl
none_of (some a) h = elim (false≢true h) [ ]

module _ (env : Env) (n ns : String)
    (bare : (t : Trace) → unlabelled (env.get_secret t n ns) ≡ true) where
  secret_error-unlabelled :
      (k k' : Kode) (t : Template) (s : Secret)
      → is_none (lookup name_label s.labels) ≡ true
      → is_some (secret_error k (init_kode_resources_config k' t) s) ≡ true
  unfolding secret_error init_kode_resources_config
  secret_error-unlabelled k k' t s h =
      rw (has_required_labels-unlabelled k' t s.labels (none_of (lookup name_label s.labels) h))
        (ground arith)

  Ends-validate_secret :
      (k k' : Kode) (t : Template)
      → get_secret_name k ≡ n
      → k.namespace ≡ ns
      → Ends
          (Of n ns)
          (λ e. is_some e ≡ true)
          (validate_secret env k (init_kode_resources_config k' t))
  unfolding validate_secret ask if_failed pure ◌>>=◌
  Ends-validate_secret k k' t named placed = record {
    at = λ s h.
        go s (env.get_secret s.calls (get_secret_name k) k.namespace)
          (rw (named, placed) (bare s.calls));
  }
    where
      go :
          (s : St) (r : Result Secret)
          → unlabelled r ≡ true
          → Holds
              (λ e. is_some e ≡ true)
              (if_failed {S = St} r
                (λ e. pure (some (wrap "failed to get Secret" e)))
                (λ x. pure (secret_error k (init_kode_resources_config k' t) x))
                s).0
      go s (ok x) h = secret_error-unlabelled k k' t x h
      go s (err e) h = refl

  Ends-validate_configuration :
      (k : Kode) (t : Template)
      → Ends
          (Of n ns)
          (λ e. is_some e ≡ true)
          (validate_configuration env (init_kode_resources_config k t))
  unfolding validate_configuration
  Ends-validate_configuration k' t = Ends-get_bind _ λ s h.
      Ends-bind_of _ _ _ (Keeps-validate_secret env _ _) (Ends-validate_secret s.kode k' t h.0 h.1)
        λ e there. Ends-refused e _ _ there (λ x. Ends-Yields _ (Yields-pure _ refl))

  Fails-error :
      (e : Error) (message : String) → Ends (Of n ns) Fails (handle_reconcile_error env e message)
  unfolding handle_reconcile_error
  Fails-error e message = Ends-Yields _ (search yields_rules depth 20)

  Fails-validate :
      (k : Kode) (t : Template) (h : Error → M Next) (m : M Next)
      → ((x : Error) → Ends (Of n ns) Fails (h x))
      → Ends
          (Of n ns)
          Fails
          (validate_configuration env (init_kode_resources_config k t) >>= λ e. if_err e h m)
  Fails-validate k t h m eh =
      Ends-bind_of _ _ _ (Keeps-validate_configuration env _) (Ends-validate_configuration k t)
        λ e there. Ends-refused e h m there eh

  stable : Stable (Of n ns)
  stable = Of-Stable n ns

  Fails-report :
      (e : Error) (reason message : String)
      → Ends (Of n ns) Fails (record_event warning reason >> handle_reconcile_error env e message)
  Fails-report e reason message =
      Ends-then _ _ (Stable-event env stable warning reason) (Fails-error e message)

  Keeps-note : (b : Bool) (reason : String) → Keeps (Of n ns) (when b (record_event normal reason))
  Keeps-note b reason = search (keeps_rules, Stable-event env stable)

  Fails-handle_configuring_state : Ends (Of n ns) Fails (handle_configuring_state env)
  unfolding handle_configuring_state
  Fails-handle_configuring_state = Ends-bind _ _ (Stable-fetch_templates_with_retry env stable) λ r.
      Ends-if_failed r _ _ (λ e. Fails-report e _ _)
        λ t. Ends-get_bind _ λ s h. Ends-bind _ _ (Stable-detect_changes env stable _) λ r.
          Ends-if_failed r _ _ (λ e. Fails-report e _ _)
            λ changes. Ends-then _ _ (Keeps-note _ _) (
              Ends-bind _ _ (Stable-apply_configuration env stable _ changes) λ e.
                Ends-if_err e _ _ (λ e. Fails-report e _ _)
                  (Ends-then _ _ (Keeps-note _ _)
                    (Fails-validate s.kode t _ _ (λ e. Fails-report e _ _))))

-- If, whenever the API server is asked for the secret of the Kode, it gives none or one without the label that names the
-- Kode, then handleConfiguringState returns an error, unless it panics: the Kode does not get to Provisioning.
pub handle_configuring_state-Fails :
    (env : Env) (s : St)
    → ((t : Trace) → unlabelled (env.get_secret t (get_secret_name s.kode) s.kode.namespace) ≡ true)
    → Holds Fails (handle_configuring_state env s).0
handle_configuring_state-Fails env s bare =
    (Fails-handle_configuring_state env (get_secret_name s.kode) s.kode.namespace bare).at s
      (refl, refl)
