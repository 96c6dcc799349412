-- ===== src/Go/Keeps.antt =====
-- Reasoning about code over a state, one rule for each way to build it: what a call keeps of the
-- state, and which values it may return.
use kode_operator.Prelude.{Bool, true, false, Option, none, some, if◌then◌else◌}
use kode_operator.Go.{
  Error, Result, ok, err, Outcome, done, panic, Exec, continue, ◌>>=◌, ◌>>◌, pure, nil_pointer,
  gets, modify, deref, if_err, if_failed, if_some, when,
}

-- `m` keeps `P`, whether it returns or panics.
pub record Keeps {S A : Type 0} (P : S → Type 0) (m : Exec S A) : Type 0 where
  pub at : (s : S) → P s → P (m s).1

-- `Q` of what is returned; a panic returns nothing.
abbrev pub Holds : {A : Type 0} → (A → Type 0) → Outcome A → Type 0
Holds Q (done a) = Q a
Holds Q panic = Unit

-- Whatever `m` returns is in `Q`.
pub record Yields {S A : Type 0} (Q : A → Type 0) (m : Exec S A) : Type 0 where
  pub at : (s : S) → Holds Q (m s).0

module _ {S A : Type 0} {P : S → Type 0} where
  pub Keeps-nil_pointer : Keeps P (nil_pointer {A = A})
  unfolding nil_pointer
  Keeps-nil_pointer = record { at = λ s h. h }

  pub Keeps-gets : (f : S → A) → Keeps P (gets f)
  unfolding gets
  Keeps-gets f = record { at = λ s h. h }

  pub Keeps-pure : (v : A) → Keeps P (pure v)
  unfolding pure
  Keeps-pure v = record { at = λ s h. h }

  pub Keeps-deref : (p : Option A) → Keeps P (deref p)
  unfolding deref
  Keeps-deref none = record { at = λ s h. h }
  Keeps-deref (some a) = record { at = λ s h. h }

  pub Keeps-if : (b : Bool) (m n : Exec S A) → Keeps P m → Keeps P n → Keeps P (if b then m else n)
  Keeps-if true m n km kn = km
  Keeps-if false m n km kn = kn

  pub Keeps-if_err :
      (e : Option Error) (h : Error → Exec S A) (m : Exec S A)
      → ((x : Error) → Keeps P (h x))
      → Keeps P m
      → Keeps P (if_err e h m)
  unfolding if_err
  Keeps-if_err none h m kh km = km
  Keeps-if_err (some e) h m kh km = kh e

module _ {S A B : Type 0} {P : S → Type 0} where
  pub Keeps-if_failed :
      (r : Result A) (h : Error → Exec S B) (f : A → Exec S B)
      → ((x : Error) → Keeps P (h x))
      → ((a : A) → Keeps P (f a))
      → Keeps P (if_failed r h f)
  unfolding if_failed
  Keeps-if_failed (ok a) h f kh kf = kf a
  Keeps-if_failed (err e) h f kh kf = kh e

  pub Keeps-if_some :
      (p : Option A) (f : A → Exec S B) (m : Exec S B)
      → ((a : A) → Keeps P (f a))
      → Keeps P m
      → Keeps P (if_some p f m)
  unfolding if_some
  Keeps-if_some none f m kf km = km
  Keeps-if_some (some a) f m kf km = kf a

  continue-keeps :
      (o : Outcome A) (rest : A → Exec S B) (t : S)
      → ((v : A) → Keeps P (rest v))
      → P t
      → P (continue o rest t).1
  continue-keeps (done v) rest t k h = (k v).at t h
  continue-keeps panic rest t k h = h

  pub Keeps-bind :
      (first : Exec S A) (rest : A → Exec S B)
      → Keeps P first
      → ((v : A) → Keeps P (rest v))
      → Keeps P (first >>= rest)
  unfolding ◌>>=◌
  Keeps-bind first rest kept k = record {
    at = λ s h. continue-keeps (first s).0 rest (first s).1 k (kept.at s h);
  }

module _ {S : Type 0} {P : S → Type 0} where
  pub Keeps-modify : (f : S → S) → ((s : S) → P s → P (f s)) → Keeps P (modify f)
  unfolding modify
  Keeps-modify f h = record { at = h }

  pub Keeps-when : (b : Bool) (m : Exec S Unit) → Keeps P m → Keeps P (when b m)
  unfolding when
  Keeps-when true m km = km
  Keeps-when false m km = record { at = λ s h. h }

module _ {S B : Type 0} {P : S → Type 0} where
  pub Keeps-then : (m : Exec S Unit) (n : Exec S B) → Keeps P m → Keeps P n → Keeps P (m >> n)
  unfolding ◌>>◌
  Keeps-then m n km kn = Keeps-bind m (λ _. n) km (λ _. kn)

pub ruleset keeps_rules = (
  Keeps-pure, Keeps-nil_pointer, Keeps-gets, Keeps-deref, Keeps-if, Keeps-if_err, Keeps-if_failed,
  Keeps-if_some, Keeps-bind, Keeps-when, Keeps-then,
)

module _ {S A : Type 0} {Q : A → Type 0} where
  pub Yields-pure : (a : A) → Q a → Yields {S = S} Q (pure a)
  unfolding pure
  Yields-pure a q = record { at = λ s. q }

  pub Yields-if :
      (b : Bool) (m n : Exec S A) → Yields Q m → Yields Q n → Yields Q (if b then m else n)
  Yields-if true m n ym yn = ym
  Yields-if false m n ym yn = yn

  pub Yields-if_err :
      (e : Option Error) (h : Error → Exec S A) (m : Exec S A)
      → ((x : Error) → Yields Q (h x))
      → Yields Q m
      → Yields Q (if_err e h m)
  unfolding if_err
  Yields-if_err none h m yh ym = ym
  Yields-if_err (some e) h m yh ym = yh e

  pub Yields-then : (m : Exec S Unit) (n : Exec S A) → Yields Q n → Yields Q (m >> n)
  unfolding ◌>>◌
  Yields-then m n yn = record { at = λ s. go (m s).0 (m s).1 }
    where
      go : (o : Outcome Unit) (t : S) → Holds Q (continue o (λ _. n) t).0
      go (done u) t = yn.at t
      go panic t = tt

module _ {S A B : Type 0} {Q : B → Type 0} where
  pub Yields-if_failed :
      (r : Result A) (h : Error → Exec S B) (f : A → Exec S B)
      → ((x : Error) → Yields Q (h x))
      → ((a : A) → Yields Q (f a))
      → Yields Q (if_failed r h f)
  unfolding if_failed
  Yields-if_failed (ok a) h f yh yf = yf a
  Yields-if_failed (err e) h f yh yf = yh e

  pub Yields-if_some :
      (p : Option A) (f : A → Exec S B) (m : Exec S B)
      → ((a : A) → Yields Q (f a))
      → Yields Q m
      → Yields Q (if_some p f m)
  unfolding if_some
  Yields-if_some none f m yf ym = ym
  Yields-if_some (some a) f m yf ym = yf a

  pub Yields-bind :
      (m : Exec S A) (f : A → Exec S B) → ((a : A) → Yields Q (f a)) → Yields Q (m >>= f)
  unfolding ◌>>=◌
  Yields-bind m f yf = record { at = λ s. go (m s).0 (m s).1 }
    where
      go : (o : Outcome A) (t : S) → Holds Q (continue o f t).0
      go (done a) t = (yf a).at t
      go panic t = tt

  -- The rest of the block may use what the first part yields.
  pub Yields-bind_of :
      (R : A → Type 0) (m : Exec S A) (f : A → Exec S B)
      → Yields R m
      → ((a : A) → R a → Yields Q (f a))
      → Yields Q (m >>= f)
  unfolding ◌>>=◌
  Yields-bind_of R m f ym yf = record { at = λ s. go (m s).0 (m s).1 (ym.at s) }
    where
      go : (o : Outcome A) (t : S) → Holds R o → Holds Q (continue o f t).0
      go (done a) t r = (yf a r).at t
      go panic t r = tt

pub ruleset yields_rules = (
  Yields-pure, Yields-if, Yields-if_err, Yields-then, Yields-if_failed, Yields-if_some, Yields-bind,
)

module _ {S A B : Type 0} {P : S → Type 0} where
  -- The rest of a block may use what the first part yields.
  pub Keeps-bind_of :
      (R : A → Type 0) (m : Exec S A) (f : A → Exec S B)
      → Keeps P m
      → Yields R m
      → ((a : A) → R a → Keeps P (f a))
      → Keeps P (m >>= f)
  unfolding ◌>>=◌
  Keeps-bind_of R m f km ym kf = record { at = λ s h. go (m s).0 (m s).1 (ym.at s) (km.at s h) }
    where
      go : (o : Outcome A) (t : S) → Holds R o → P t → P (continue o f t).1
      go (done a) t r h = (kf a r).at t h
      go panic t r h = h
