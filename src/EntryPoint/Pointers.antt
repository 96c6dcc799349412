-- ===== src/EntryPoint/Pointers.antt =====
-- The pointers that the EntryPoint controller reads without a test.
use kode_operator.Prelude.{
  String, Option, none, some, Bool, true, false, is_some, false≢true, sym, ◌≡◌, refl, subst,
}
use kode_operator.Go.{ok, done, panic, ◌>>=◌, ◌>>◌, pure, deref, nil_pointer, if_failed}
use kode_operator.Api.{EntryPoint, GatewaySpec, CrossNamespaceObjectReference, same_phase, active}
use kode_operator.Env.{Env, St, get, change_entry_point}
use kode_operator.EntryPoint.Config.{gateway_of, init_entry_point_resources_config}
use kode_operator.EntryPoint.Lookup.{find_entry_point_for_kode-same}
use kode_operator.EntryPoint.Reconcile.{find_entry_point_for_kode, route_through, reconcile_kode}

-- A reference to a gateway, where there is one, names a namespace.
abbrev pub names_namespace : Option CrossNamespaceObjectReference → Bool
names_namespace none = true
names_namespace (some ref) = is_some ref.namespace

-- The EntryPoint has a gateway, whose reference, if it has one, names a namespace.
abbrev pub is_complete : Option GatewaySpec → Bool
is_complete none = false
is_complete (some g) = names_namespace g.existing_gateway_ref

module _ (s : St) where
  gateway_of-panics :
      (e : EntryPoint) (ref : Option CrossNamespaceObjectReference)
      → names_namespace ref ≡ false
      → gateway_of e ref s ≡ (panic, s)
  unfolding gateway_of deref nil_pointer ◌>>=◌
  gateway_of-panics e none h = elim (false≢true (sym h)) [ ]
  gateway_of-panics e (some ref) h = go ref.namespace refl h
    where
      go :
          (x : Option String)
          → ref.namespace ≡ x
          → is_some x ≡ false
          → gateway_of e (some ref) s ≡ (panic, s)
      go none d i = rw d refl
      go (some n) d i = elim (false≢true (sym i)) [ ]

  init_config-panics :
      (e : EntryPoint)
      → is_complete e.spec.gateway_spec ≡ false
      → init_entry_point_resources_config e s ≡ (panic, s)
  unfolding init_entry_point_resources_config deref nil_pointer pure ◌>>=◌ gateway_of
  init_config-panics e h = go e.spec.gateway_spec refl h
    where
      go :
          (x : Option GatewaySpec)
          → e.spec.gateway_spec ≡ x
          → is_complete x ≡ false
          → init_entry_point_resources_config e s ≡ (panic, s)
      go none d i = rw d refl
      go (some g) d i = rw (d, gateway_of-panics e g.existing_gateway_ref i) refl

-- If the EntryPoint of an active Kode has no GatewaySpec, or refers to a gateway without a namespace, then a run of
-- the EntryPoint controller for the Kode panics, before any call is made that can change something.
pub reconcile_kode-panics :
    (env : Env) (s t : St) (e : EntryPoint)
    → same_phase s.kode.status.phase active ≡ true
    → find_entry_point_for_kode env s ≡ (done (ok e), t)
    → is_complete e.spec.gateway_spec ≡ false
    → ((reconcile_kode env s).0 ≡ panic) × ((reconcile_kode env s).1.calls ≡ s.calls)
unfolding reconcile_kode route_through ◌>>=◌ ◌>>◌ get change_entry_point if_failed
reconcile_kode-panics env s t e live found h =
    let same : (t.kode ≡ s.kode) × (t.calls ≡ s.calls) =
      subst (λ r. (r.1.kode ≡ s.kode) × (r.1.calls ≡ s.calls)) found
        (find_entry_point_for_kode-same env s) in
    rw (live, found, init_config-panics (record t { entry_point = e }) e h) (refl, same.1)
