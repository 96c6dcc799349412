-- ===== src/Template/Named.antt =====
-- The template manager does not confuse templates: what its cache holds and what Fetch returns.
use kode_operator.Prelude.{
  String, str_eq, str_eq_iff, true, false, insert, lookup, lookup-insert, Option, none, some, List,
  get_or, ◌≡◌, refl, sym, ◌∙◌, inl, inr, Bool-cases, if◌then◌else◌, subst,
}
use kode_operator.Go.{
  Error, Result, ok, err, wrap, Outcome, done, panic, continue, is_not_found, ◌>>=◌, ◌>>◌, pure,
  modify, gets, if_err, if_failed, if_some,
}
use kode_operator.Go.Keeps.{
  Keeps, Keeps-bind_of, Keeps-then, Keeps-pure, Yields, Yields-if, Yields-bind_of, Yields-pure,
}
use kode_operator.Api.{
  CrossNamespaceObjectReference, Template, ContainerTemplateSharedSpec, EntryPointSpec, EntryPoint,
}
use kode_operator.Env.{Env, St, M, Trace, ask}
use kode_operator.Env.Frame.{Keeps-backoff}
use kode_operator.Template.{
  template_kind_container, template_kind_cluster_container, handle_not_found_error, with_spec,
  validate_ref, get_cache_key, fetch_container_template, fetch_cluster_container_template,
  fetch_entry_point, fetch_template, set_fetched, remember, try_fetch, fetch_stored, fetch_fresh,
  fetch,
}
use kode_operator.Template.Frame.{Keeps-fetch_template}
use kode_operator.Template.Keys.{SlashFree, get_cache_key-injective}

-- The API server has answered this spec to a Get of the template of this kind, namespace and name.
pub data Given (env : Env) (kind namespace name : String)
    : ContainerTemplateSharedSpec → Type 0 where
  namespaced :
      (x : Trace) (spec : ContainerTemplateSharedSpec)
      → str_eq kind template_kind_container ≡ true
      → env.get_container_template x name namespace ≡ ok spec
      → Given env kind namespace name spec
  clustered :
      (x : Trace) (spec : ContainerTemplateSharedSpec)
      → str_eq kind template_kind_cluster_container ≡ true
      → env.get_cluster_container_template x name ≡ ok spec
      → Given env kind namespace name spec

-- The spec of an EntryPoint is left out, or it is that of the EntryPoint that the API server has answered for the reference.
pub data Entered (env : Env)
    : Option CrossNamespaceObjectReference → Option EntryPointSpec → Type 0 where
  left_out : (r : Option CrossNamespaceObjectReference) → Entered env r none
  answered :
      (x : Trace) (r : CrossNamespaceObjectReference) (e : EntryPoint)
      → env.get_entry_point x r.name "" ≡ ok e
      → Entered env (some r) (some e.spec)

-- The template is the one of this kind, namespace and name, and holds what the API server has answered for it.
pub record Stored (env : Env) (kind namespace name : String) (t : Template) : Type 0 where
  pub of_kind : t.kind ≡ kind
  pub in_namespace : t.namespace ≡ namespace
  pub called : t.name ≡ name
  pub spec : ContainerTemplateSharedSpec
  pub given : Given env kind namespace name spec
  pub holds : t.container_template_spec ≡ some spec
  pub ports : t.port ≡ spec.port
  pub refers : t.entry_point_ref ≡ spec.entry_point_ref
  pub entered : Entered env t.entry_point_ref t.entry_point_spec

-- The template is the one that the reference names. A namespace that is left out is the empty one.
abbrev pub Named : Env → CrossNamespaceObjectReference → Template → Type 0
Named env ref t = Stored env ref.kind (get_or ref.namespace "") ref.name t

data Answer (env : Env) (ref : CrossNamespaceObjectReference) : Result Template → Type 0 where
  named : (t : Template) → Named env ref t → Answer env ref (ok t)
  refused : (e : Error) → Answer env ref (err e)

-- An answer of the surroundings is what they answer to some calls.
record Asked {A : Type 0} (f : Trace → A) (a : A) : Type 0 where
  at : Trace
  is : f at ≡ a

Yields-ask : {A : Type 0} (f : Trace → A) → Yields (Asked f) (ask f)
unfolding ask
Yields-ask f = record { at = λ s. record { at = s.calls; is = refl } }

module _ (env : Env) (ref : CrossNamespaceObjectReference) where
  -- The template before it is filled in
  abbrev blank : Template
  blank = record {
    kind = ref.kind;
    name = ref.name;
    namespace = get_or ref.namespace "";
    port = 0;
    container_template_spec = none;
    entry_point_ref = none;
    entry_point_spec = none;
  }

  filled :
      (spec : ContainerTemplateSharedSpec)
      → Given env ref.kind (get_or ref.namespace "") ref.name spec
      → Answer env ref (ok (with_spec blank spec))
  filled spec g = named _ (record {
    of_kind = refl;
    in_namespace = refl;
    called = refl;
    spec = spec;
    given = g;
    holds = refl;
    ports = refl;
    refers = refers spec.entry_point_ref;
    entered = left_out _;
  })
    where
      refers :
          (r : Option CrossNamespaceObjectReference) → elim r [ none ↦ none | some x ↦ some x ] ≡ r
      refers none = refl
      refers (some x) = refl

  -- What follows the Get of a template.
  Answer-found :
      (r : Result ContainerTemplateSharedSpec)
      → ((spec : ContainerTemplateSharedSpec)
          → r ≡ ok spec
          → Given env ref.kind (get_or ref.namespace "") ref.name spec)
      → Yields {S = St} (Answer env ref) (
          if_failed r
            (λ e. pure (err (handle_not_found_error e ref)))
            (λ spec. pure (ok (with_spec blank spec))))
  unfolding if_failed
  Answer-found (ok spec) g = Yields-pure _ (filled spec (g spec refl))
  Answer-found (err e) g = Yields-pure _ (refused _)

  Answer-fetch_container_template :
      str_eq ref.kind template_kind_container ≡ true
      → Yields (Answer env ref) (fetch_container_template env blank ref)
  unfolding fetch_container_template
  Answer-fetch_container_template k =
      Yields-bind_of _ _ _ (Yields-ask _)
        (λ r a. Answer-found r (λ spec e. namespaced a.at spec k (a.is ∙ e)))

  Answer-fetch_cluster_container_template :
      str_eq ref.kind template_kind_cluster_container ≡ true
      → Yields (Answer env ref) (fetch_cluster_container_template env blank ref)
  unfolding fetch_cluster_container_template
  Answer-fetch_cluster_container_template k =
      Yields-bind_of _ _ _ (Yields-ask _)
        (λ r a. Answer-found r (λ spec e. clustered a.at spec k (a.is ∙ e)))

  entered_by :
      (t : Template)
      → Named env ref t
      → (r : CrossNamespaceObjectReference) → t.entry_point_ref ≡ some r
      → (x : Trace) (e : EntryPoint) → env.get_entry_point x r.name "" ≡ ok e
      → Answer env ref (ok (record t { entry_point_spec = some e.spec }))
  entered_by t n r q x e a = named _ (record {
    of_kind = n.of_kind;
    in_namespace = n.in_namespace;
    called = n.called;
    spec = n.spec;
    given = n.given;
    holds = n.holds;
    ports = n.ports;
    refers = n.refers;
    entered = subst (λ o. Entered env o (some e.spec)) (sym q) (answered x r e a);
  })

  Answer-entered :
      (t : Template)
      → Named env ref t
      → (r : CrossNamespaceObjectReference) → t.entry_point_ref ≡ some r
      → (f : Result EntryPoint) → Asked (λ x. env.get_entry_point x r.name "") f
      → Yields {S = St} (Answer env ref) (
          if_failed f
            (λ e.
              if is_not_found e
              then pure (ok t)
              else pure (err (wrap "failed to fetch EntryPoint" e)))
            (λ e. pure (ok (record t { entry_point_spec = some e.spec }))))
  unfolding if_failed
  Answer-entered t n r q (ok e) a = Yields-pure _ (entered_by t n r q a.at e a.is)
  Answer-entered t n r q (err e) a =
      Yields-if _ _ _ (Yields-pure _ (named t n)) (Yields-pure _ (refused _))

  Answer-fetch_entry_point :
      (t : Template) → Named env ref t → Yields (Answer env ref) (fetch_entry_point env t)
  unfolding fetch_entry_point if_some
  Answer-fetch_entry_point t n = go t.entry_point_ref refl
    where
      go :
          (o : Option CrossNamespaceObjectReference)
          → t.entry_point_ref ≡ o
          → Yields {S = St} (Answer env ref) (
              if_some o
                (λ r. ask (λ x. env.get_entry_point x r.name "") >>= λ found.
                  if_failed found
                    (λ e.
                      if is_not_found e
                      then pure (ok t)
                      else pure (err (wrap "failed to fetch EntryPoint" e)))
                    (λ e. pure (ok (record t { entry_point_spec = some e.spec }))))
                (pure (ok t)))
      go none q = Yields-pure _ (named t n)
      go (some r) q = Yields-bind_of _ _ _ (Yields-ask _) (λ f a. Answer-entered t n r q f a)

  Answer-finish :
      (m : M (Result Template)) (what : String)
      → Yields (Answer env ref) m
      → Yields
          (Answer env ref)
          (m >>= λ r. if_failed r (λ e. pure (err (wrap what e))) (fetch_entry_point env))
  unfolding if_failed
  Answer-finish m what y = Yields-bind_of (Answer env ref) _ _ y λ r h. go r h
    where
      go :
          (r : Result Template)
          → Answer env ref r
          → Yields {S = St}
              (Answer env ref)
              (if_failed r (λ e. pure (err (wrap what e))) (fetch_entry_point env))
      go (ok t) (named u n) = Answer-fetch_entry_point t n
      go (err e) h = Yields-pure _ (refused (wrap what e))

  Answer-fetch_template : Yields (Answer env ref) (fetch_template env ref)
  unfolding fetch_template
  Answer-fetch_template = elim (Bool-cases (str_eq ref.kind template_kind_container)) [
    | inl k ↦ rw k (Answer-finish _ _ (Answer-fetch_container_template k))
    | inr k ↦ elim (Bool-cases (str_eq ref.kind template_kind_cluster_container)) [
      | inl c ↦ rw (k, c) (Answer-finish _ _ (Answer-fetch_cluster_container_template c))
      | inr c ↦ rw (k, c) (Yields-pure _ (refused _))
    ]
  ]

-- Each entry of the cache is the template that the references of its key name.
abbrev pub CacheNamed : Env → List (String × Template) → Type 0
CacheNamed env cache =
    (ref : CrossNamespaceObjectReference)
    → SlashFree ref
    → (t : Template) → lookup (get_cache_key ref) cache ≡ some t
    → Named env ref t

CacheNamed-insert :
    (env : Env) (ref : CrossNamespaceObjectReference) (t : Template)
    (cache : List (String × Template))
    → SlashFree ref
    → Named env ref t
    → CacheNamed env cache
    → CacheNamed env (insert (get_cache_key ref) t cache)
CacheNamed-insert env ref t cache free n h other free' u e =
    elim (Bool-cases (str_eq (get_cache_key ref) (get_cache_key other))) [
      | inl b ↦
          let found : some t ≡ some u = rw b at looked in
          let (k, ns, m) = get_cache_key-injective ref other free free' ((str_eq_iff _ _).0 b) in
          let same : t ≡ u = cc in
          subst (Named env other) same (
            subst (λ x. Stored env x (get_or other.namespace "") other.name t) k
              (subst (λ x. Stored env ref.kind x other.name t) ns
                (subst (λ x. Stored env ref.kind (get_or ref.namespace "") x t) m n)))
      | inr b ↦ h other free' u (rw b at looked)
    ]
  where
    looked :
        (if str_eq (get_cache_key ref) (get_cache_key other)
          then some t
          else lookup (get_cache_key other) cache)
        ≡ some u
    looked = sym (lookup-insert (get_cache_key ref) (get_cache_key other) t cache) ∙ e

-- The state of the template manager while Fetch runs for `ref`.
record Sound (env : Env) (ref : CrossNamespaceObjectReference) (s : St) : Type 0 where
  cache : CacheNamed env s.cache
  fetched : (t : Template) → s.fetched ≡ some t → Named env ref t

-- How Fetch ends: a template that it returns is the one that was asked for, and the cache is in order.
abbrev pub Delivered :
    Env → CrossNamespaceObjectReference → Outcome (Result (Option Template)) × St → Type 0
Delivered env ref (done (ok (some t)), s) = Named env ref t × CacheNamed env s.cache
Delivered env ref (done (ok none), s) = CacheNamed env s.cache
Delivered env ref (done (err e), s) = CacheNamed env s.cache
Delivered env ref (panic, s) = CacheNamed env s.cache

module _ (env : Env) (ref : CrossNamespaceObjectReference) (free : SlashFree ref) where
  Sound-set_fetched :
      (t : Template) → Named env ref t → Keeps (Sound env ref) (set_fetched env (some t))
  unfolding set_fetched modify
  Sound-set_fetched t n = record {
    at = λ s h. record { cache = h.cache; fetched = λ u e. subst (Named env ref) (cc) n };
  }

  Sound-set_no_fetched : Keeps (Sound env ref) (set_fetched env none)
  unfolding set_fetched modify
  Sound-set_no_fetched = record { at = λ s h. record { cache = h.cache; fetched = λ u e. cc } }

  Sound-try_fetch : Keeps (Sound env ref) (try_fetch env ref)
  unfolding try_fetch if_failed
  Sound-try_fetch =
      Keeps-bind_of (Answer env ref) _ _ (Keeps-fetch_template env ref)
        (Answer-fetch_template env ref) λ r h. go r h
    where
      go :
          (r : Result Template)
          → Answer env ref r
          → Keeps (Sound env ref) (
              if_failed r
                (λ e. set_fetched env none >> pure (if is_not_found e then err e else ok false))
                (λ t. set_fetched env (some t) >> pure (ok true)))
      go (ok t) (named u n) = Keeps-then _ _ (Sound-set_fetched t n) (Keeps-pure _)
      go (err e) h = Keeps-then _ _ Sound-set_no_fetched (Keeps-pure _)

  -- From a sound state, the code delivers.
  record Delivers (m : M (Result (Option Template))) : Type 0 where
    at : (s : St) → Sound env ref s → Delivered env ref (m s)

  Delivers-bind :
      {A : Type 0} (m : M A) (f : A → M (Result (Option Template)))
      → Keeps (Sound env ref) m
      → ((a : A) → Delivers (f a))
      → Delivers (m >>= f)
  unfolding ◌>>=◌
  Delivers-bind {A} m f km kf = record { at = λ s h. go (m s).0 (m s).1 (km.at s h) }
    where
      go : (o : Outcome A) (t : St) → Sound env ref t → Delivered env ref (continue o f t)
      go (done a) t h = (kf a).at t h
      go panic t h = h.cache

  -- What Fetch does after the retries.
  Delivered-remember :
      (s : St)
      → Sound env ref s
      → Delivered env ref (
          (gets (λ (s : St). s.fetched) >>= λ found.
          remember env (get_cache_key ref) found >> pure (ok found))
            s)
  unfolding gets remember modify pure ◌>>=◌ ◌>>◌
  Delivered-remember s h = go s.fetched h.fetched
    where
      go :
          (found : Option Template)
          → ((t : Template) → found ≡ some t → Named env ref t)
          → Delivered env ref ((remember env (get_cache_key ref) found >> pure (ok found)) s)
      go none n = h.cache
      go (some t) n = (n t refl, CacheNamed-insert env ref t s.cache free (n t refl) h.cache)

  Delivers-fetch_stored : (e : Option Error) → Delivers (fetch_stored env (get_cache_key ref) e)
  unfolding fetch_stored pure if_err
  Delivers-fetch_stored none = record { at = Delivered-remember }
  Delivers-fetch_stored (some e) = record { at = λ s h. h.cache }

  -- What Fetch does after the validation of the reference.
  Delivered-looked_up :
      (found : Option Template) (s : St)
      → lookup (get_cache_key ref) s.cache ≡ found
      → CacheNamed env s.cache
      → Delivered env ref (if_some found (λ t. pure (ok (some t))) (fetch_fresh env ref) s)
  unfolding fetch_fresh if_some pure set_fetched modify ◌>>◌ ◌>>=◌
  Delivered-looked_up none s e h =
      (Delivers-bind _ _ (Keeps-backoff env 5 _ Sound-try_fetch) Delivers-fetch_stored).at
        (record s { fetched = none }) (record { cache = h; fetched = λ u e. cc })
  Delivered-looked_up (some t) s e h = (h ref free t e, h)

-- Fetch of a reference whose kind and namespace hold no slash returns only the template of this kind, namespace and
-- name, filled in with what the API server has answered for it, and leaves a cache in which each entry is the template that the references of its key name, if the cache was
-- such a cache before. So no reference is answered with the template of another.
pub fetch-Delivered :
    (env : Env) (ref : CrossNamespaceObjectReference) (s : St)
    → SlashFree ref
    → CacheNamed env s.cache
    → Delivered env ref (fetch env ref s)
unfolding fetch if_err pure gets ◌>>=◌
fetch-Delivered env ref s free h = go (validate_ref ref)
  where
    go :
        (e : Option Error)
        → Delivered env ref (
            if_err e
              (λ e. pure (err e))
              (gets (λ (s : St). s.cache) >>= λ cache.
                if_some
                  (lookup (get_cache_key ref) cache)
                  (λ t. pure (ok (some t)))
                  (fetch_fresh env ref))
              s)
    go none = Delivered-looked_up env ref free (lookup (get_cache_key ref) s.cache) s refl h
    go (some e) = h
