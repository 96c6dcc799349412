-- ===== src/Template/Errors.antt =====
-- The errors of the template manager and its retries.
use kode_operator.Prelude.{
  String, Bool, true, false, none, some, ◌≡◌, refl, inl, inr, Bool-cases, if◌then◌else◌,
}
use kode_operator.Go.{Error, Result, ok, err, wrap, is_not_found, ◌>>=◌, ◌>>◌, pure, if_failed}
use kode_operator.Go.Keeps.{Yields, Yields-bind_of, Yields-pure, Yields-then, yields_rules}
use kode_operator.Api.{CrossNamespaceObjectReference, Template}
use kode_operator.Env.{Env, St, M}
use kode_operator.Template.{
  handle_not_found_error, fetch_container_template, fetch_cluster_container_template,
  fetch_entry_point, fetch_template, set_fetched, try_fetch,
}

-- An answer whose error, if it is one, does not count as NotFound.
data Hidden {A : Type 0} : Result A → Type 0 where
  found : (a : A) → Hidden (ok a)
  hidden : (e : Error) → is_not_found e ≡ false → Hidden (err e)

handle_not_found_error-hides :
    (e : Error) (ref : CrossNamespaceObjectReference)
    → is_not_found (handle_not_found_error e ref) ≡ false
unfolding handle_not_found_error
handle_not_found_error-hides e ref = elim (Bool-cases (is_not_found e)) [
  | inl h ↦ rw h refl
  | inr h ↦ rw h h
]

module _ (env : Env) where
  Hidden-fetch_container_template :
      (t : Template) (ref : CrossNamespaceObjectReference)
      → Yields Hidden (fetch_container_template env t ref)
  unfolding fetch_container_template
  Hidden-fetch_container_template t ref =
      search (yields_rules, found, hidden, handle_not_found_error-hides) depth 20

  Hidden-fetch_cluster_container_template :
      (t : Template) (ref : CrossNamespaceObjectReference)
      → Yields Hidden (fetch_cluster_container_template env t ref)
  unfolding fetch_cluster_container_template
  Hidden-fetch_cluster_container_template t ref =
      search (yields_rules, found, hidden, handle_not_found_error-hides) depth 20

  -- What fetchTemplate does with an error of the lookup of the EntryPoint.
  Hidden-forgive :
      (e : Error) (t : Template) (what : String)
      → Yields {S = St} Hidden (if is_not_found e then pure (ok t) else pure (err (wrap what e)))
  Hidden-forgive e t what = elim (Bool-cases (is_not_found e)) [
    | inl h ↦ rw h (Yields-pure _ (found t))
    | inr h ↦ rw h (Yields-pure _ (hidden (wrap what e) h))
  ]

  Hidden-fetch_entry_point : (t : Template) → Yields Hidden (fetch_entry_point env t)
  unfolding fetch_entry_point
  Hidden-fetch_entry_point t = search (yields_rules, found, Hidden-forgive) depth 20

  Hidden-finish :
      (m : M (Result Template)) (what : String)
      → Yields Hidden m
      → Yields Hidden
          (m >>= λ r. if_failed r (λ e. pure (err (wrap what e))) (fetch_entry_point env))
  unfolding if_failed
  Hidden-finish m what y = Yields-bind_of Hidden _ _ y λ r h. go r h
    where
      go :
          (r : Result Template)
          → Hidden r
          → Yields {S = St} Hidden
              (if_failed r (λ e. pure (err (wrap what e))) (fetch_entry_point env))
      go (ok t) h = Hidden-fetch_entry_point t
      go (err e) (hidden x h) = Yields-pure _ (hidden (wrap what e) h)

  Hidden-fetch_template :
      (ref : CrossNamespaceObjectReference) → Yields Hidden (fetch_template env ref)
  unfolding fetch_template
  Hidden-fetch_template ref =
      search
        (
          yields_rules, Hidden-finish, Hidden-fetch_container_template,
          Hidden-fetch_cluster_container_template, hidden,
        )
        depth 20

-- A run of the function that is retried ends with `ok`.
pub data Answered : Result Bool → Type 0 where
  answered : (b : Bool) → Answered (ok b)

-- The function that Fetch retries never ends the retries with an error: a template that the API
-- server does not find counts as an error to be tried again, like any other.
pub try_fetch-Answered :
    (env : Env) (ref : CrossNamespaceObjectReference) → Yields Answered (try_fetch env ref)
unfolding try_fetch if_failed
try_fetch-Answered env ref = Yields-bind_of Hidden _ _ (Hidden-fetch_template env ref) λ r h. go r h
  where
    go :
        (r : Result Template)
        → Hidden r
        → Yields {S = St} Answered (
            if_failed r
              (λ e. set_fetched env none >> pure (if is_not_found e then err e else ok false))
              (λ t. set_fetched env (some t) >> pure (ok true)))
    go (ok t) h = Yields-then _ _ (Yields-pure _ (answered true))
    go (err e) (hidden x h) = Yields-then _ _ (rw h (Yields-pure _ (answered false)))
