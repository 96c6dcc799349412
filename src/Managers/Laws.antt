-- ===== src/Managers/Laws.antt =====
-- The type information that the managers add.
use kode_operator.Prelude.{
  String, Bool, true, false, Option, none, some, List, [], ◌∷◌, ◌≡◌, refl, subst, inl, inr,
  Bool-cases,
}
use kode_operator.Go.{
  Error, Result, ok, err, wrap, Outcome, done, Exec, ◌>>=◌, ◌>>◌, pure, if_failed, modify,
}
use kode_operator.Env.{OperationResult, operation_none, EventType}
use kode_operator.Managers.{
  GroupVersionKind, Object, Scheme, Event, is_untyped, typed_as, add_type_information_to_object,
  record_object,
}

abbrev pub AllTyped : Result (List GroupVersionKind) → Type 0
AllTyped (err e) = Unit
AllTyped (ok []) = Unit
AllTyped (ok (g ∷ gs)) = (is_untyped g ≡ false) × AllTyped (ok gs)

-- An answer that is an error, or an object that has its type information.
data Typed : Result Object → Type 0 where
  refused : (e : Error) → Typed (err e)
  typed : (o : Object) → is_untyped o.type_info ≡ false → Typed (ok o)

module _ (scheme : Scheme) (known : (t : String) → AllTyped (scheme t)) where
  typed_as-Typed :
      (o : Object) (r : Result (List GroupVersionKind)) → AllTyped r → Typed (typed_as o r)
  unfolding typed_as
  typed_as-Typed o (err e) h = refused _
  typed_as-Typed o (ok []) h = refused _
  typed_as-Typed o (ok (g ∷ gs)) (h, hs) = typed _ h

  add_type_information_to_object-Typed :
      (o : Option Object) → Typed (add_type_information_to_object scheme o)
  unfolding add_type_information_to_object
  add_type_information_to_object-Typed none = refused _
  add_type_information_to_object-Typed (some o) = elim (Bool-cases (is_untyped o.type_info)) [
    | inl b ↦ rw b (typed_as-Typed o (scheme o.go_type) (known o.go_type))
    | inr b ↦ rw b (typed o b)
  ]

  is_untyped-completed :
      (o : Option Object) (p : Object)
      → add_type_information_to_object scheme o ≡ ok p
      → is_untyped p.type_info ≡ false
  is_untyped-completed o p e = go p (subst Typed e (add_type_information_to_object-Typed o))
    where
      go : (p : Object) → Typed (ok p) → is_untyped p.type_info ≡ false
      go p (typed q h) = h

  -- An object that AddTypeInformationToObject has completed is left as it is by the next call of it, if the scheme answers
  -- only with kinds that have a name and a version.
  pub add_type_information_to_object_idem :
      (o : Option Object) (p : Object)
      → add_type_information_to_object scheme o ≡ ok p
      → add_type_information_to_object scheme (some p) ≡ ok p
  unfolding add_type_information_to_object
  add_type_information_to_object_idem o p e = rw (is_untyped-completed o p e) refl

-- The scheme knows a kind.
abbrev answers : Result (List GroupVersionKind) → Bool
answers (err e) = false
answers (ok []) = false
answers (ok (g ∷ gs)) = true

-- How CreateOrPatch ends for an object: the client is handed just this object, completed by the first kind that the scheme
-- answers for its Go type if it has no type information. It is not called, and there is an error, only
-- for a nil object, or if the scheme knows no kind for an object without type information.
pub data Handed {S : Type 0} (scheme : Scheme)
    (client : Object → Exec S (OperationResult × Option Error)) (s : S)
    : Option Object → Outcome (OperationResult × Option Error) × S → Type 0 where
  kept :
      (p : Object) → is_untyped p.type_info ≡ false → Handed scheme client s (some p) (client p s)
  completed :
      (p : Object) (g : GroupVersionKind) (gs : List GroupVersionKind)
      → is_untyped p.type_info ≡ true
      → scheme p.go_type ≡ ok (g ∷ gs)
      → is_untyped g ≡ false
      → Handed scheme client s (some p) (client (record p { type_info = g }) s)
  unknown :
      (p : Object) (e : Error)
      → is_untyped p.type_info ≡ true
      → answers (scheme p.go_type) ≡ false
      → Handed scheme client s (some p) (done (operation_none, some e), s)
  missing : (e : Error) → Handed scheme client s none (done (operation_none, some e), s)

-- How Record ends: one event is recorded, of an object that has its type information, or none, and there is an
-- error.
pub data Recorded (type : EventType) (reason message : String) (events : List Event)
    : Outcome (Option Error) × List Event → Type 0 where
  recorded :
      (o : Object)
      → is_untyped o.type_info ≡ false
      → Recorded type reason message events (
        done none,
        record { object = o; type = type; reason = reason; message = message } ∷ events,
      )
  dropped : (e : Error) → Recorded type reason message events (done (some e), events)

-- Record records one event, of an object with its type information, or returns an error and records nothing, if the scheme
-- answers only with kinds that have a name and a version.
record_object-Recorded :
    (scheme : Scheme)
    → ((t : String) → AllTyped (scheme t))
    → (o : Option Object) (type : EventType) (reason message : String) (events : List Event)
    → Recorded type reason message events (record_object scheme o type reason message events)
unfolding record_object if_failed pure modify ◌>>=◌ ◌>>◌
record_object-Recorded scheme known o type reason message events =
    go (add_type_information_to_object scheme o)
      (add_type_information_to_object-Typed scheme known o)
  where
    go :
        (r : Result Object)
        → Typed r
        → Recorded type reason message events (
            if_failed r
              (λ e. pure (some (wrap "failed to add type information to object" e)))
              (λ typed.
                modify (λ es.
                  record { object = typed; type = type; reason = reason; message = message } ∷ es)
                >> pure none)
              events)
    go (err e) (refused e') = dropped _
    go (ok p) (typed q h) = recorded q h
