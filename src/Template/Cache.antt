-- ===== src/Template/Cache.antt =====
-- The cache of the template manager.
use kode_operator.Prelude.{
  String, str_eq_refl, lookup, lookup-insert, Option, none, some, ◌≡◌, refl, subst,
}
use kode_operator.Go.{
  Error, Result, ok, err, wrap, Outcome, done, panic, continue, ◌>>=◌, ◌>>◌, pure, modify, gets,
  if_err, if_some,
}
use kode_operator.Api.{CrossNamespaceObjectReference, Template}
use kode_operator.Env.{Env, St, M}
use kode_operator.Template.{validate_ref, get_cache_key, remember, fetch_stored, fetch_fresh, fetch}

-- A template that is returned is in the cache under `key`.
abbrev Remembered : String → Outcome (Result (Option Template)) × St → Type 0
Remembered key (done (ok (some t)), s) = lookup key s.cache ≡ some t
Remembered key (done (ok none), s) = Unit
Remembered key (done (err e), s) = Unit
Remembered key (panic, s) = Unit

record Remembers (key : String) (m : M (Result (Option Template))) : Type 0 where
  at : (s : St) → Remembered key (m s)

module _ (key : String) where
  Remembers-bind :
      {A : Type 0} (m : M A) (f : A → M (Result (Option Template)))
      → ((a : A) → Remembers key (f a))
      → Remembers key (m >>= f)
  unfolding ◌>>=◌
  Remembers-bind {A} m f k = record { at = λ s. go (m s).0 (m s).1 }
    where
      go : (o : Outcome A) (t : St) → Remembered key (continue o f t)
      go (done a) t = (k a).at t
      go panic t = tt

  Remembers-then :
      (m : M Unit) (n : M (Result (Option Template))) → Remembers key n → Remembers key (m >> n)
  unfolding ◌>>◌
  Remembers-then m n k = Remembers-bind m (λ u. n) (λ u. k)

  Remembers-if_err :
      (e : Option Error) (what : String) (m : M (Result (Option Template)))
      → Remembers key m
      → Remembers key (if_err e (λ x. pure (err (wrap what x))) m)
  unfolding if_err pure
  Remembers-if_err none what m k = k
  Remembers-if_err (some x) what m k = record { at = λ s. tt }

  module _ (env : Env) where
    Remembers-remember :
        (found : Option Template) → Remembers key (remember env key found >> pure (ok found))
    unfolding remember ◌>>◌ ◌>>=◌ pure modify
    Remembers-remember none = record { at = λ s. tt }
    Remembers-remember (some t) = record { at = λ s. rw (lookup-insert, str_eq_refl) refl }

    Remembers-fetch_stored : (e : Option Error) → Remembers key (fetch_stored env key e)
    unfolding fetch_stored
    Remembers-fetch_stored e = Remembers-if_err e _ _ (Remembers-bind _ _ Remembers-remember)

  Remembers-looked_up :
      (found : Option Template) (m : M (Result (Option Template))) (s : St)
      → lookup key s.cache ≡ found
      → Remembers key m
      → Remembered key (if_some found (λ t. pure (ok (some t))) m s)
  unfolding if_some pure
  Remembers-looked_up none m s e k = k.at s
  Remembers-looked_up (some t) m s e k = e

module _ (env : Env) (ref : CrossNamespaceObjectReference) where
  Remembers-fetch_fresh : Remembers (get_cache_key ref) (fetch_fresh env ref)
  unfolding fetch_fresh
  Remembers-fetch_fresh =
      Remembers-then _ _ _ (Remembers-bind _ _ _ (Remembers-fetch_stored (get_cache_key ref) env))

  fetch-Remembered : (s : St) → Remembered (get_cache_key ref) (fetch env ref s)
  unfolding fetch if_err ◌>>=◌ gets pure
  fetch-Remembered s = go (validate_ref ref)
    where
      go :
          (e : Option Error)
          → Remembered (get_cache_key ref) (
              if_err e
                (λ e. pure (err e))
                (gets (λ (s : St). s.cache) >>= λ cache.
                  if_some
                    (lookup (get_cache_key ref) cache)
                    (λ t. pure (ok (some t)))
                    (fetch_fresh env ref))
                s)
      go none =
          Remembers-looked_up (get_cache_key ref) (lookup (get_cache_key ref) s.cache) _ s refl
            (Remembers-fetch_fresh)
      go (some e) = tt

  fetch-valid :
      (s t : St) (a : Template)
      → fetch env ref s ≡ (done (ok (some a)), t)
      → validate_ref ref ≡ none
  unfolding fetch if_err pure
  fetch-valid s t a h = go (validate_ref ref) refl
    where
      clash :
          (x : Error) (u v : St) (b : Template)
          → (pure {S = St} {A = Result (Option Template)} (err x) u ≡ (done (ok (some b)), v))
          → validate_ref ref ≡ none
      clash x u v b e = cc

      go : (e : Option Error) → validate_ref ref ≡ e → validate_ref ref ≡ none
      go none p = p
      go (some x) p = clash x s t a (rw p at h)

-- A template that Fetch has returned is returned again by the next Fetch of the same reference,
-- from the cache: no call is made and nothing changes.
pub fetch-fetch :
    (env : Env) (ref : CrossNamespaceObjectReference) (s t : St) (a : Template)
    → fetch env ref s ≡ (done (ok (some a)), t)
    → fetch env ref t ≡ (done (ok (some a)), t)
unfolding fetch if_err if_some ◌>>=◌ gets pure
fetch-fetch env ref s t a h =
    rw
      (
        fetch-valid env ref s t a h,
        subst (Remembered (get_cache_key ref)) h (fetch-Remembered env ref s),
      )
      refl
