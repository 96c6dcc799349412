-- ===== src/Go/Succeeds.antt =====
-- Code that returns a known value: from a state in `P`, `m` returns `a` and leaves a state in `Q`.
use kode_operator.Prelude.{
  Bool, true, false, false≢true, if◌then◌else◌, Option, none, some, ◌≡◌, refl, sym, ap, subst,
}
use kode_operator.Go.{done, Exec, ◌>>=◌, ◌>>◌, pure, deref, if_some, gets, nil_pointer, when}
use kode_operator.Go.Keeps.{Keeps}

pub record Succeeds {S A : Type 0} (P Q : S → Type 0) (m : Exec S A) (a : A) : Type 0 where
  pub at : (s : S) → P s → ((m s).0 ≡ done a) × Q (m s).1

module _ {S A : Type 0} {P : S → Type 0} where
  pub Succeeds-pure : (a : A) → Succeeds P P (pure a) a
  unfolding pure
  Succeeds-pure a = record { at = λ s h. (refl, h) }

  pub Succeeds-Keeps :
      (m : Exec S A) (a : A) → ((s : S) → (m s).0 ≡ done a) → Keeps P m → Succeeds P P m a
  Succeeds-Keeps m a e k = record { at = λ s h. (e s, k.at s h) }

  -- The code returns `a` and changes nothing.
  pub Succeeds-still :
      (m : Exec S A) (a : A) → ((s : S) → P s → m s ≡ (done a, s)) → Succeeds P P m a
  Succeeds-still m a e = record {
    at = λ s h. (ap (λ r. r.0) (e s h), subst (λ r. P r.1) (sym (e s h)) h);
  }

  pub Succeeds-deref : (o : Option A) (a : A) → o ≡ some a → Succeeds P P (deref o) a
  unfolding deref nil_pointer pure
  Succeeds-deref none a e = record { at = λ s h. absurd (cc e) }
  Succeeds-deref (some x) a e = record { at = λ s h. (cc e, h) }

  pub Succeeds-if :
      {Q : S → Type 0} (b : Bool) (m n : Exec S A) (a : A)
      → b ≡ true
      → Succeeds P Q m a
      → Succeeds P Q (if b then m else n) a
  Succeeds-if true m n a e k = k
  Succeeds-if false m n a e k = elim (false≢true e) [ ]

  pub Succeeds-unless :
      {Q : S → Type 0} (b : Bool) (m n : Exec S A) (a : A)
      → b ≡ false
      → Succeeds P Q n a
      → Succeeds P Q (if b then m else n) a
  Succeeds-unless true m n a e k = elim (false≢true (sym e)) [ ]
  Succeeds-unless false m n a e k = k

  pub Succeeds-either :
      {Q : S → Type 0} (b : Bool) (m n : Exec S A) (a : A)
      → Succeeds P Q m a
      → Succeeds P Q n a
      → Succeeds P Q (if b then m else n) a
  Succeeds-either true m n a em en = em
  Succeeds-either false m n a em en = en

  pub Succeeds-gets : (f : S → A) (a : A) → ((s : S) → P s → f s ≡ a) → Succeeds P P (gets f) a
  unfolding gets
  Succeeds-gets f a e = record { at = λ s h. (ap done (e s h), h) }

  pub Succeeds-if_none :
      {B : Type 0} {Q : S → Type 0} (o : Option B) (f : B → Exec S A) (m : Exec S A) (a : A)
      → o ≡ none
      → Succeeds P Q m a
      → Succeeds P Q (if_some o f m) a
  unfolding if_some
  Succeeds-if_none none f m a e k = k
  Succeeds-if_none (some b) f m a e k = absurd (cc e)

module _ {S A B : Type 0} {P R Q : S → Type 0} where
  pub Succeeds-bind :
      (m : Exec S A) (f : A → Exec S B) (a : A) (b : B)
      → Succeeds P R m a
      → Succeeds R Q (f a) b
      → Succeeds P Q (m >>= f) b
  unfolding ◌>>=◌
  Succeeds-bind m f a b first rest = record {
    at = λ s h. rw ((first.at s h).0) (rest.at (m s).1 (first.at s h).1);
  }

module _ {S B : Type 0} {P R Q : S → Type 0} where
  pub Succeeds-then :
      (m : Exec S Unit) (n : Exec S B) (b : B)
      → Succeeds P R m tt
      → Succeeds R Q n b
      → Succeeds P Q (m >> n) b
  unfolding ◌>>◌
  Succeeds-then m n b first rest = Succeeds-bind m (λ u. n) tt b first rest

module _ {S : Type 0} {P : S → Type 0} where
  pub Succeeds-skip : (b : Bool) (m : Exec S Unit) → b ≡ false → Succeeds P P (when b m) tt
  unfolding when
  Succeeds-skip true m e = elim (false≢true (sym e)) [ ]
  Succeeds-skip false m e = Succeeds-pure tt
