-- ===== src/Managers.antt =====
-- The event manager and the resource manager: internal/event/event.go, internal/resourcev1/resource.go, and
-- AddTypeInformationToObject of internal/common/utils.go. Get, List and Delete of the resource manager only hand
-- their arguments on and are left out.
pub mod Laws
use kode_operator.Prelude.{
  String, str_eq, Bool, Option, none, some, List, [], ◌∷◌, ◌||◌, if◌then◌else◌,
}
use kode_operator.Go.{
  Error, Result, ok, err, new_error, wrap, Exec, ◌>>=◌, ◌>>◌, pure, if_failed, modify,
}
use kode_operator.Env.{EventType, OperationResult, operation_none}

-- `schema.GroupVersionKind`
pub record GroupVersionKind : Type 0 where
  pub group : String
  pub version : String
  pub kind : String

-- An object as the managers see it: its Go type, its name, and the type information that they complete.
pub record Object : Type 0 where
  pub go_type : String
  pub name : String
  pub namespace : String
  pub type_info : GroupVersionKind

-- `scheme.ObjectKinds`, which looks at the Go type
abbrev pub Scheme : Type 0
Scheme = String → Result (List GroupVersionKind)

unfoldable pub is_untyped : GroupVersionKind → Bool
is_untyped g = str_eq g.kind "" || str_eq g.version ""

-- What is made of the answer of ObjectKinds. The message does not name the Go type.
unfoldable pub typed_as : Object → Result (List GroupVersionKind) → Result Object
typed_as obj (err e) = err (wrap "failed to get object kinds" e)
typed_as obj (ok []) = err (new_error "no valid GroupVersionKind found for object")
typed_as obj (ok (g ∷ gs)) = ok (record obj { type_info = g })

-- `AddTypeInformationToObject`, with the object that it leaves. A nil object is `none`.
unfoldable pub add_type_information_to_object : Scheme → Option Object → Result Object
unfolding is_untyped typed_as
add_type_information_to_object scheme none = err (new_error "input object is nil")
add_type_information_to_object scheme (some obj) =
    if is_untyped obj.type_info then typed_as obj (scheme obj.go_type) else ok obj

-- A call of the event recorder.
pub record Event : Type 0 where
  pub object : Object
  pub type : EventType
  pub reason : String
  pub message : String

-- `Record`, over the calls of the event recorder so far
unfoldable pub record_object :
    Scheme → Option Object → EventType → String → String → Exec (List Event) (Option Error)
record_object scheme obj type reason message =
    if_failed (add_type_information_to_object scheme obj)
      (λ e. pure (some (wrap "failed to add type information to object" e)))
      (λ typed. do
        modify (λ events.
            record { object = typed; type = type; reason = reason; message = message } ∷ events)
        pure none)

-- `CreateOrPatch`, with `controllerutil.CreateOrPatch` for the client and the mutate function
unfoldable pub create_or_patch :
    {S : Type 0}
    → Scheme
    → (Object → Exec S (OperationResult × Option Error))
    → Option Object
    → Exec S (OperationResult × Option Error)
create_or_patch scheme client obj =
    if_failed (add_type_information_to_object scheme obj)
      (λ e. pure (operation_none, some (wrap "failed to add type information to object" e))) client
