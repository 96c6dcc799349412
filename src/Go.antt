-- ===== src/Go.antt =====
-- What the program uses of Go: errors, functions of two results, and code that changes the state
-- behind its pointers and may panic.
pub mod Keeps
pub mod Succeeds
pub mod Ends
use kode_operator.Prelude.{ℕ, String, ◌<>◌, Bool, true, false, Option, none, some}

-- What `apierrors.IsNotFound` and `apierrors.IsConflict` tell apart.
pub data Reason : Type 0 where
  not_found conflict other : Reason

pub record Error : Type 0 where
  pub reason : Reason
  pub message : String

abbrev pub is_not_found : Error → Bool
is_not_found e = elim (e.reason) [ Reason.not_found ↦ true | _ ↦ false ]

-- `fmt.Errorf(message)`
abbrev pub new_error : String → Error
new_error message = record { reason = Reason.other; message = message }

-- `fmt.Errorf("prefix: %w", err)`: the reason shows through.
abbrev pub wrap : String → Error → Error
wrap prefix e = record { reason = e.reason; message = prefix <> ": " <> e.message }

-- `fmt.Errorf("prefix: %v", err)`: the text alone.
abbrev pub describe : String → Error → Error
describe prefix e = new_error (prefix <> ": " <> e.message)

-- `client.IgnoreNotFound(err)`
abbrev pub ignore_not_found : Error → Option Error
ignore_not_found e = if_not_found (is_not_found e)
  where
    if_not_found : Bool → Option Error
    if_not_found true = none
    if_not_found false = some e

-- `(value, error)`
pub data Result {ℓ} (A : Type ℓ) : Type ℓ where
  ok : A → Result A
  err : Error → Result A

-- How a call ends: it returns, or it panics.
pub data Outcome {ℓ} (A : Type ℓ) : Type ℓ where
  done : A → Outcome A
  panic : Outcome A

-- Code over the state `S`. What was written before a panic stays written.
abbrev pub Exec {ℓ} : Type ℓ → Type ℓ → Type ℓ
Exec S A = S → Outcome A × S

module _ {ℓ} {S A B : Type ℓ} where
  abbrev pub continue : Outcome A → (A → Exec S B) → Exec S B
  continue (done a) f s = f a s
  continue panic f s = (panic, s)

  infixl 5 ◌>>=◌
  unfoldable pub ◌>>=◌ : Exec S A → (A → Exec S B) → Exec S B
  ◌>>=◌ m f s = continue (m s).0 f (m s).1

module _ {ℓ} {S B : Type ℓ} where
  infixl 5 ◌>>◌
  unfoldable pub ◌>>◌ : Exec S (Unit {ℓ}) → Exec S B → Exec S B
  unfolding ◌>>=◌
  ◌>>◌ m k = m >>= λ _. k

module _ {ℓ} {S A : Type ℓ} where
  unfoldable pub pure : A → Exec S A
  pure a s = (done a, s)

  -- A nil pointer is read.
  unfoldable pub nil_pointer : Exec S A
  nil_pointer s = (panic, s)

  unfoldable pub gets : (S → A) → Exec S A
  gets f s = (done (f s), s)

unfoldable pub modify {ℓ} : {S : Type ℓ} → (S → S) → Exec S (Unit {ℓ})
modify f s = (done tt, f s)

-- `*p`
unfoldable pub deref {ℓ} : {S A : Type ℓ} → Option A → Exec S A
unfolding nil_pointer pure
deref none = nil_pointer
deref (some a) = pure a

-- `if err := …; err != nil { … }`
unfoldable pub if_err {ℓ} : {S B : Type ℓ} → Option Error → (Error → Exec S B) → Exec S B → Exec S B
if_err none handle rest = rest
if_err (some e) handle rest = handle e

-- `v, err := …; if err != nil { … }`
unfoldable pub if_failed {ℓ} :
    {S A B : Type ℓ} → Result A → (Error → Exec S B) → (A → Exec S B) → Exec S B
if_failed (ok a) handle rest = rest a
if_failed (err e) handle rest = handle e

-- `if b { … }`
unfoldable pub when {ℓ} : {S : Type ℓ} → Bool → Exec S (Unit {ℓ}) → Exec S (Unit {ℓ})
unfolding pure
when true m = m
when false m = pure tt

-- `if p != nil { … }`
unfoldable pub if_some {ℓ} : {S A B : Type ℓ} → Option A → (A → Exec S B) → Exec S B → Exec S B
if_some none f rest = rest
if_some (some a) f rest = f a
