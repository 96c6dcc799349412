-- ===== src/Go/Ends.antt =====
-- Code whose result is known to be in `Q` where it starts in `P`, or which panics.
use kode_operator.Prelude.{
  Bool, true, false, Option, none, some, is_some, ◌≡◌, false≢true, if◌then◌else◌,
}
use kode_operator.Go.{
  Error, Result, ok, err, Outcome, done, panic, continue, Exec, ◌>>=◌, ◌>>◌, if_err, if_failed,
}
use kode_operator.Go.Keeps.{Keeps, Holds, Yields}

pub record Ends {S A : Type 0} (P : S → Type 0) (Q : A → Type 0) (m : Exec S A) : Type 0 where
  pub at : (s : S) → P s → Holds Q (m s).0

module _ {S A : Type 0} {P : S → Type 0} {Q : A → Type 0} where
  pub Ends-Yields : (m : Exec S A) → Yields Q m → Ends P Q m
  Ends-Yields m y = record { at = λ s h. y.at s }

  pub Ends-if :
      (b : Bool) (m n : Exec S A) → Ends P Q m → Ends P Q n → Ends P Q (if b then m else n)
  Ends-if true m n em en = em
  Ends-if false m n em en = en

  pub Ends-if_err :
      (e : Option Error) (h : Error → Exec S A) (m : Exec S A)
      → ((x : Error) → Ends P Q (h x))
      → Ends P Q m
      → Ends P Q (if_err e h m)
  unfolding if_err
  Ends-if_err none h m eh em = em
  Ends-if_err (some e) h m eh em = eh e

  -- An error is sure to be there.
  pub Ends-refused :
      (e : Option Error) (h : Error → Exec S A) (m : Exec S A)
      → is_some e ≡ true
      → ((x : Error) → Ends P Q (h x))
      → Ends P Q (if_err e h m)
  unfolding if_err
  Ends-refused none h m there eh = elim (false≢true there) [ ]
  Ends-refused (some e) h m there eh = eh e

module _ {S A B : Type 0} {P : S → Type 0} {Q : B → Type 0} where
  pub Ends-if_failed :
      (r : Result A) (h : Error → Exec S B) (f : A → Exec S B)
      → ((x : Error) → Ends P Q (h x))
      → ((a : A) → Ends P Q (f a))
      → Ends P Q (if_failed r h f)
  unfolding if_failed
  Ends-if_failed (ok a) h f eh ef = ef a
  Ends-if_failed (err e) h f eh ef = eh e

  pub Ends-bind_of :
      (R : A → Type 0) (m : Exec S A) (f : A → Exec S B)
      → Keeps P m
      → Ends P R m
      → ((a : A) → R a → Ends P Q (f a))
      → Ends P Q (m >>= f)
  unfolding ◌>>=◌
  Ends-bind_of R m f km em ef = record { at = λ s h. go (m s).0 (m s).1 (em.at s h) (km.at s h) }
    where
      go : (o : Outcome A) (t : S) → Holds R o → P t → Holds Q (continue o f t).0
      go (done a) t r h = (ef a r).at t h
      go panic t r h = tt

  pub Ends-bind :
      (m : Exec S A) (f : A → Exec S B)
      → Keeps P m
      → ((a : A) → Ends P Q (f a))
      → Ends P Q (m >>= f)
  unfolding ◌>>=◌
  Ends-bind m f km ef = record { at = λ s h. go (m s).0 (m s).1 (km.at s h) }
    where
      go : (o : Outcome A) (t : S) → P t → Holds Q (continue o f t).0
      go (done a) t h = (ef a).at t h
      go panic t h = tt

module _ {S B : Type 0} {P : S → Type 0} {Q : B → Type 0} where
  pub Ends-then : (m : Exec S Unit) (n : Exec S B) → Keeps P m → Ends P Q n → Ends P Q (m >> n)
  unfolding ◌>>◌
  Ends-then m n km en = Ends-bind m (λ u. n) km (λ u. en)

pub ruleset ends_rules = (Ends-if, Ends-if_err, Ends-if_failed, Ends-bind, Ends-then)
