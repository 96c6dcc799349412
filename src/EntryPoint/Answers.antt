-- ===== src/EntryPoint/Answers.antt =====
-- What the EntryPoint controller answers, and the phase that it leaves.
use kode_operator.Prelude.{
  ◌*◌, String, Bool, true, false, Option, none, some, ◌≡◌, refl, ◌⊎◌, inl, inr, if◌then◌else◌,
}
use kode_operator.Go.{
  Error, Result, ok, err, Outcome, done, panic, continue, ◌>>=◌, ◌>>◌, pure, if_err, if_failed,
}
use kode_operator.Go.Keeps.{Keeps}
use kode_operator.Api.{Phase, Kode, EntryPoint, failed}
use kode_operator.Api.Names.{KodeAddress}
use kode_operator.Env.{Env, St, M, change}
use kode_operator.Env.Frame.{Keeps-ask, Keeps-get, Keeps-change_entry_point}
use kode_operator.StateMachine.{stop, requeue_after}
use kode_operator.Cleanup.{second}
use kode_operator.EntryPoint.Config.{EntryPointResourceConfig}
use kode_operator.EntryPoint.Frame.{
  Routable, Routable-event, Routable-update_status, Routable-set_condition,
  Routable-ensure_security_policy, Routable-ensure_http_routes, Routable-find_entry_point_for_kode,
  Routable-init_config,
}
use kode_operator.EntryPoint.Reconcile.{
  Reply, fail, store_url, publish, route_through, answer_missing, reconcile_kode,
}

-- Every answer of `m`, from a state in `P`, and the state that it leaves are in `Q`.
record Ends (P : St → Type 0) (Q : Outcome Reply → St → Type 0) (m : M Reply) : Type 0 where
  at : (s : St) → P s → Q (m s).0 (m s).1

module _ {P : St → Type 0} {Q : Outcome Reply → St → Type 0}
    (crash : (s : St) → P s → Q panic s) where
  Ends-bind :
      {A : Type 0} (m : M A) (f : A → M Reply)
      → Keeps P m
      → ((a : A) → Ends P Q (f a))
      → Ends P Q (m >>= f)
  unfolding ◌>>=◌
  Ends-bind {A} m f k e = record { at = λ s h. go (m s).0 (m s).1 (k.at s h) }
    where
      go : (o : Outcome A) (t : St) → P t → Q (continue o f t).0 (continue o f t).1
      go (done a) t h = (e a).at t h
      go panic t h = crash t h

  Ends-then : (m : M Unit) (n : M Reply) → Keeps P m → Ends P Q n → Ends P Q (m >> n)
  unfolding ◌>>◌
  Ends-then m n k e = Ends-bind m (λ u. n) k (λ u. e)

module _ {P : St → Type 0} {Q : Outcome Reply → St → Type 0} where
  Ends-pure : (r : Reply) → ((s : St) → P s → Q (done r) s) → Ends P Q (pure r)
  unfolding pure
  Ends-pure r h = record { at = h }

  Ends-if : (b : Bool) (m n : M Reply) → Ends P Q m → Ends P Q n → Ends P Q (if b then m else n)
  Ends-if true m n em en = em
  Ends-if false m n em en = en

  Ends-if_err :
      (e : Option Error) (f : Error → M Reply) (m : M Reply)
      → ((x : Error) → Ends P Q (f x))
      → Ends P Q m
      → Ends P Q (if_err e f m)
  unfolding if_err
  Ends-if_err none f m ef em = em
  Ends-if_err (some e) f m ef em = ef e

  Ends-if_failed :
      {A : Type 0} (r : Result A) (f : Error → M Reply) (g : A → M Reply)
      → ((x : Error) → Ends P Q (f x))
      → ((a : A) → Ends P Q (g a))
      → Ends P Q (if_failed r f g)
  unfolding if_failed
  Ends-if_failed (ok a) f g ef eg = eg a
  Ends-if_failed (err e) f g ef eg = ef e

  -- After a change of the Kode another predicate holds.
  Ends-change :
      {R : St → Type 0} (f : Kode → Kode) (m : M Reply)
      → ((s : St) → P s → R (record s { kode = f s.kode }))
      → Ends R Q m
      → Ends P Q (change f >> m)
  unfolding ◌>>◌ ◌>>=◌ change
  Ends-change f m h e = record { at = λ s p. e.at _ (h s p) }

abbrev At : Phase → St → Type 0
At p s = s.kode.status.phase ≡ p

-- With no error the phase is `p`. With an error it is `p` or Failed, and the next run is due after five
-- seconds.
abbrev pub Answer : Phase → Outcome Reply → St → Type 0
Answer p (done (r, none)) t = t.kode.status.phase ≡ p
Answer p (done (r, some e)) t =
    (r ≡ requeue_after (5 * second)) × ((t.kode.status.phase ≡ p) ⊎ (t.kode.status.phase ≡ failed))
Answer p panic t = (t.kode.status.phase ≡ p) ⊎ (t.kode.status.phase ≡ failed)

At-Routable : {p : Phase} → Routable (λ k. Unit) (At p)
At-Routable = record {
  ordinary = record {
    patching = λ k s h. h;
    recording = λ t reason s h. h;
    conditioning = λ f s h. h;
    caching = λ cache fetched s h. h;
  };
  allowed = λ s h. tt;
  routing = λ c k domain route u e s h. h;
  owning = λ f s h. h;
}

module _ (env : Env) (p : Phase) where
  abbrev Good : M Reply → Type 0
  Good m = Ends (At p) (Answer p) m

  crash : (s : St) → At p s → Answer p panic s
  crash s h = inl h

  crash_failed : (s : St) → At failed s → Answer p panic s
  crash_failed s h = inr h

  fail-Good : (message : String) (e : Error) → Good (fail env message e)
  unfolding fail
  fail-Good message e = Ends-then crash _ _ (Routable-set_condition env At-Routable _ _ _ _) (
      Ends-bind crash _ _ (Keeps-ask _) λ now.
        Ends-change _ _ (λ s h. refl)
          (Ends-bind crash_failed _ _ (Routable-update_status env At-Routable) λ u.
            Ends-if_err u _ _ (λ u. Ends-pure _ (λ s h. (refl, inr h)))
              (Ends-then crash_failed _ _ (Routable-event env At-Routable _ _)
                (Ends-pure _ (λ s h. (refl, inr h))))))

  store_url-Good : (url : String) → Good (store_url env url)
  unfolding store_url
  store_url-Good url = Ends-if _ _ _ (Ends-pure _ (λ s h. h)) (
      Ends-change _ _ (λ s h. h)
        (Ends-then crash _ _ (Routable-set_condition env At-Routable _ _ _ _) (
          Ends-bind crash _ _ (Routable-update_status env At-Routable) λ e.
            Ends-if_err e _ _ (λ e. Ends-pure _ (λ s h. (refl, inl h))) (Ends-pure _ (λ s h. h)))))

  publish-Good : (c : EntryPointResourceConfig) (a : KodeAddress) → Good (publish env c a)
  unfolding publish
  publish-Good c a = Ends-bind crash _ _ Keeps-get λ kode.
      Ends-if _ _ _ (Ends-pure (stop, none) (λ s h. h)) (
        Ends-if _ _ _ (Ends-pure (requeue_after (5 * second), none) (λ s h. h)) (
          Ends-bind crash _ _
            (Routable-ensure_http_routes env At-Routable c
              (Routable-ensure_security_policy env At-Routable (λ q s h. h) c) a.domain)
            λ e. Ends-if_err e _ _ (fail-Good _) (store_url-Good a.url)))

  route_through-Good : (e : EntryPoint) → Good (route_through env e)
  unfolding route_through
  route_through-Good e = Ends-then crash _ _ (Keeps-change_entry_point _ (λ s h. h)) (
      Ends-bind crash _ _ (Routable-init_config env At-Routable e) λ c.
        Ends-bind crash _ _ Keeps-get λ kode. Ends-if_failed _ _ _ (fail-Good _) (publish-Good c))

  answer_missing-Good : (e : Error) → Good (answer_missing env e)
  unfolding answer_missing
  answer_missing-Good e = Ends-if _ _ _ (Ends-pure _ (λ s h. h)) (fail-Good _ e)

  reconcile_kode-Good : Good (reconcile_kode env)
  unfolding reconcile_kode
  reconcile_kode-Good = Ends-bind crash _ _ Keeps-get λ kode.
      Ends-if _ _ _
        (Ends-bind crash _ _ (Routable-find_entry_point_for_kode env At-Routable)
          λ x. Ends-if_failed x _ _ answer_missing-Good route_through-Good)
        (Ends-pure _ (λ s h. h))

-- A run of the EntryPoint controller on a Kode that returns no error leaves its phase as it was. One that returns an error
-- asks for another run after five seconds and leaves the phase as it was or Failed. A panic, too, leaves one of these
-- two phases.
pub reconcile_kode-Answer :
    (env : Env) (s : St)
    → Answer s.kode.status.phase (reconcile_kode env s).0 (reconcile_kode env s).1
reconcile_kode-Answer env s = (reconcile_kode-Good env s.kode.status.phase).at s refl
