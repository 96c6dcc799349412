-- ===== src/Kode/Release/Steps.antt =====
-- The steps of the runs that end a Kode.
use kode_operator.Prelude.{
  ℕ, String, ◌∷◌, Bool, none, ◌≡◌, refl, sym, ap, subst, true, some, get_or, ◌∙◌,
}
use kode_operator.Go.{Result, done, ◌>>=◌, modify}
use kode_operator.Go.Succeeds.{Succeeds, Succeeds-Keeps}
use kode_operator.Condition
use kode_operator.Condition.{ConditionType, ConditionStatus}
use kode_operator.Api.{Kode, KodeStatus, Phase}
use kode_operator.Env.{
  Env, St, M, Trace, EventType, get, ask, change, record_event, patch_status, event,
}
use kode_operator.KodeObject.{set_status, set_phase, set_condition, update_status}
use kode_operator.KodeObject.Saved.{last_saved, update_status-Saves}
use kode_operator.Kode.Deletion.{found}
use kode_operator.KodeObject.Laws.{Keeps-update_status}
use kode_operator.Kode.Progress.{with_status}
use kode_operator.Kode.Checks.{still_there, unless_there}
use kode_operator.Kode.Release.{gone, unless_there-gone}

-- The Kode in memory is `k` but for its status, it is in phase `p`, its generation `o` has been observed, its deletion is in cycle `n`, and the calls so
-- far are as `W` says.
pub record Parting (k : Kode) (W : Trace → Type 0) (p : Phase) (o n : ℕ) (s : St) : Type 0 where
  pub same : s.kode ≡ with_status k s.kode.status
  pub phase : s.kode.status.phase ≡ p
  pub seen : s.kode.status.observed_generation ≡ o
  pub cycle : s.kode.status.deletion_cycle ≡ n
  pub calls : W s.calls

-- The same of the Kode as it is saved, whatever the Kode in memory is.
abbrev pub SavedParting : Kode → (Trace → Type 0) → Phase → ℕ → ℕ → St → Type 0
SavedParting k W p o n s =
    Parting k W p o n (record s { kode = with_status k (get_or (last_saved s.calls) k.status) })

-- The same of the Kode in memory, whose status is the one that was saved last.
abbrev pub JustSaved : Kode → (Trace → Type 0) → Phase → ℕ → ℕ → St → Type 0
JustSaved k W p o n s = Parting k W p o n s × (last_saved s.calls ≡ some s.kode.status)

-- Events and saved statuses do not count.
pub record Steady (W : Trace → Type 0) : Type 0 where
  pub patched : (x : Kode) (t : Trace) → W t → W (patch_status x ∷ t)
  pub told : (type : EventType) (reason : String) (t : Trace) → W t → W (event type reason ∷ t)

module _ {k : Kode} {W : Trace → Type 0} where
  pub Parting-calls :
      {V : Trace → Type 0} {p : Phase} {o n : ℕ} (s : St) (t : Trace)
      → Parting k W p o n s
      → V t
      → Parting k V p o n (record s { calls = t })
  Parting-calls s t h v = record {
    same = h.same;
    phase = h.phase;
    seen = h.seen;
    cycle = h.cycle;
    calls = v;
  }

  -- A change of the status.
  pub Parting-status :
      {p q : Phase} {o o' n m : ℕ} (g : KodeStatus → KodeStatus)
      → ((x : KodeStatus) → x.phase ≡ p → (g x).phase ≡ q)
      → ((x : KodeStatus) → x.observed_generation ≡ o → (g x).observed_generation ≡ o')
      → ((x : KodeStatus) → x.deletion_cycle ≡ n → (g x).deletion_cycle ≡ m)
      → Succeeds (Parting k W p o n) (Parting k W q o' m) (change (set_status g)) tt
  unfolding change
  Parting-status g phase seen cycle = record {
    at = λ s h. (
      refl,
      record {
        same = ap (set_status g) h.same;
        phase = phase s.kode.status h.phase;
        seen = seen s.kode.status h.seen;
        cycle = cycle s.kode.status h.cycle;
        calls = h.calls;
      },
    );
  }

  module _ {p : Phase} {o n : ℕ} where
    pub Parting-set_phase :
        (q : Phase) → Succeeds (Parting k W p o n) (Parting k W q o n) (set_phase q) tt
    Parting-set_phase q =
        Parting-status (λ x. record x { phase = q }) (λ x e. refl) (λ x e. e) (λ x e. e)

    -- The rest of a block that reads the Kode may take it for `k` with some status.
    pub Parting-get :
        {A : Type 0} {Q : St → Type 0} (f : Kode → M A) (a : A)
        → ((st : KodeStatus)
            → st.phase ≡ p
            → st.observed_generation ≡ o
            → st.deletion_cycle ≡ n
            → Succeeds (Parting k W p o n) Q (f (with_status k st)) a)
        → Succeeds (Parting k W p o n) Q (get >>= f) a
    unfolding get ◌>>=◌
    Parting-get {Q = Q} f a g = record {
      at = λ s h.
          (subst (λ y. Succeeds (Parting k W p o n) Q (f y) a) (sym h.same)
              (g s.kode.status h.phase h.seen h.cycle)).at
            s h;
    }

    -- An object that is gone does not keep checkResourcesDeleted from going on.
    pub Parting-gone :
        {A : Type 0} {Q : St → Type 0} (f : Trace → Result A) (m : M (Result Bool))
        (b : Result Bool)
        → ((t : Trace) → W t → gone (f t) ≡ true)
        → Succeeds (Parting k W p o n) Q m b
        → Succeeds (Parting k W p o n) Q (ask f >>= λ r. unless_there (still_there r) m) b
    unfolding ask ◌>>=◌
    Parting-gone f m b g rest = record {
      at = λ s h. rw (unless_there-gone (f s.calls) m (g s.calls h.calls)) (rest.at s h);
    }

    module _ (env : Env) where
      pub Parting-condition :
          (type : ConditionType) (status : ConditionStatus) (reason message : String)
          → Succeeds
              (Parting k W p o n)
              (Parting k W p o n)
              (set_condition env type status reason message)
              tt
      unfolding set_condition ◌>>=◌ ask
      Parting-condition type status reason message = record {
        at = λ s h.
            (Parting-status
                (λ x. record x {
                  conditions =
                      Condition.set_condition (env.now s.calls) type status reason message
                        x.conditions;
                })
                (λ x e. e) (λ x e. e) (λ x e. e)).at
              s h;
      }

    module _ (steady : Steady W) where
      pub Parting-event :
          (type : EventType) (reason : String)
          → Succeeds (Parting k W p o n) (Parting k W p o n) (record_event type reason) tt
      unfolding record_event modify
      Parting-event type reason = record {
        at = λ s h. (refl, Parting-calls s _ h (steady.told type reason s.calls h.calls));
      }

      pub Parting-save :
          (env : Env)
          → ((s : St) → (update_status env s).0 ≡ done none)
          → Succeeds (Parting k W p o n) (Parting k W p o n) (update_status env) none
      Parting-save env saves = Succeeds-Keeps _ _ saves (
          Keeps-update_status env (λ x s h. Parting-calls s _ h (steady.patched x s.calls h.calls)))

      pub Parting-saved :
          (env : Env)
          → ((s : St) → (update_status env s).0 ≡ done none)
          → ((t : Trace) → found (env.get_kode t k.name k.namespace) ≡ true)
          → Succeeds (Parting k W p o n) (JustSaved k W p o n) (update_status env) none
      Parting-saved env saves known = record {
        at = λ s h.
            let (e, i) = (Parting-save env saves).at s h in
            let saved =
              update_status-Saves env s.kode
                (λ x. ap (λ y. found (env.get_kode x y.name y.namespace)) h.same ∙ known x) s
                refl in
            (e, (i, saved.last ∙ ap (λ y. some y.status) (sym saved.same)));
      }

-- A Kode whose status in memory is the one that was saved last.
pub JustSaved-SavedParting :
    {k : Kode} {W : Trace → Type 0} {p : Phase} {o n : ℕ} (s : St)
    → JustSaved k W p o n s
    → SavedParting k W p o n s
JustSaved-SavedParting {k} {W} {p} {o} {n} s (h, e) =
    subst (λ m. Parting k W p o n (record s { kode = m }))
      (h.same ∙ ap (λ x. with_status k (get_or x k.status)) (sym e)) h
