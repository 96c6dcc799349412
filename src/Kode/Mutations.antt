-- ===== src/Kode/Mutations.antt =====
-- A claim that ensurePersistentVolumeClaim has changed, as detectPVCChanges sees it.
use kode_operator.Prelude.{
  String, str_eq, Bool, true, false, not, Option, none, some, ◌||◌, ◌&&◌, ◌≡◌, refl, inl, inr,
  Bool-cases, ◌==◌, subst, ◌∙◌, arith, ℕ,
}
use kode_operator.Go.{ok, done, pure, deref, if_failed, ◌>>=◌}
use kode_operator.Go.Keeps.{Yields, Holds, Yields-then, Yields-pure}
use kode_operator.Api.{storage_request, KodeStorageSpec}
use kode_operator.Api.Names.{get_pvc_name}
use kode_operator.Objects.{PersistentVolumeClaim, PersistentVolumeClaimSpec}
use kode_operator.Env.{Env, St, get, ask}
use kode_operator.Kode.Config.{KodeResourceConfig}
use kode_operator.Kode.Ensure.{mutate_existing_pvc, construct_pvc_spec}
use kode_operator.Kode.Changes.{same_list, pvc_changed, detect_pvc_changes}

-- The class that is asked for is not the one that there is.
abbrev pub class_differs : Option String → Option String → Bool
class_differs c none = false
class_differs none (some d) = true
class_differs (some c) (some d) = not (str_eq c d)

-- A claim has other access modes than those that are asked for, or another storage class.
abbrev pub fixed_differ : PersistentVolumeClaim → PersistentVolumeClaimSpec → Bool
fixed_differ existing asked =
    not (same_list str_eq existing.spec.access_modes asked.access_modes)
    || class_differs existing.spec.storage_class_name asked.storage_class_name

-- The request of the claim is not the one that is asked for.
abbrev pub size_differs : PersistentVolumeClaim → PersistentVolumeClaimSpec → Bool
size_differs before asked =
    not (storage_request before.spec.resources == storage_request asked.resources)

or-class :
    (a b : Bool) (c d : Option String)
    → (a
        || b
        || elim d [ none ↦ false | some x ↦ elim c [ none ↦ true | some y ↦ not (str_eq y x) ] ])
      ≡ a || (b || class_differs c d)
or-class true b c d = refl
or-class false true c d = refl
or-class false false c none = refl
or-class false false none (some x) = refl
or-class false false (some y) (some x) = refl

pvc_changed-differ :
    (p : PersistentVolumeClaim) (asked : PersistentVolumeClaimSpec)
    → pvc_changed p asked ≡ size_differs p asked || fixed_differ p asked
unfolding pvc_changed
pvc_changed-differ p asked =
    or-class (size_differs p asked) (not (same_list str_eq p.spec.access_modes asked.access_modes))
      p.spec.storage_class_name asked.storage_class_name

equal-itself : (n : ℕ) → (n == n) ≡ true
equal-itself n = ground arith

-- What detectPVCChanges marks of a claim that the mutate function has left.
pub mutate_existing_pvc-changed :
    (env : Env) (resize_supported : Bool) (asked : PersistentVolumeClaimSpec)
    (existing before : PersistentVolumeClaim)
    → Yields
        (λ p.
          pvc_changed p asked
          ≡ (not resize_supported && size_differs before asked) || fixed_differ existing asked)
        (mutate_existing_pvc env resize_supported asked existing before)
unfolding mutate_existing_pvc
mutate_existing_pvc-changed env false asked existing before =
    Yields-then _ _ (Yields-pure _ (pvc_changed-differ _ asked))
mutate_existing_pvc-changed env true asked existing before =
    elim (Bool-cases (storage_request before.spec.resources == storage_request asked.resources)) [
      | inl h ↦ rw h (Yields-pure _ (pvc_changed-differ _ asked ∙ rw h refl))
      | inr h ↦ rw h (
          Yields-then _ _ (
            Yields-pure _ (
              pvc_changed-differ _ asked
              ∙ rw (equal-itself (storage_request asked.resources)) refl)))
    ]

-- If detectPVCChanges finds the claim that the mutate function of ensurePersistentVolumeClaim has left, and the
-- storage of the Kode names no existing claim, it marks the claim just if its access modes or its storage
-- class are not those that the Kode asks for, or a resize is not supported and the size is not.
pub detect_pvc_changes-mutated :
    (env : Env) (resize_supported : Bool) (config : KodeResourceConfig) (storage : KodeStorageSpec)
    (asked : PersistentVolumeClaimSpec) (existing before p : PersistentVolumeClaim) (t s : St)
    → config.kode_spec.storage ≡ some storage
    → storage.existing_volume_claim ≡ none
    → construct_pvc_spec config s ≡ (done asked, s)
    → (mutate_existing_pvc env resize_supported asked existing before t).0 ≡ done p
    → env.get_pvc s.calls (get_pvc_name s.kode) s.kode.namespace ≡ ok p
    → detect_pvc_changes env config s ≡ (
      done
          (ok ((not resize_supported && size_differs before asked) || fixed_differ existing asked)),
      s,
    )
unfolding detect_pvc_changes ◌>>=◌ get ask if_failed pure deref
detect_pvc_changes-mutated env resize_supported config storage asked existing before p t s stored
      own built left there =
    let marked : pvc_changed p asked
        ≡ (not resize_supported && size_differs before asked) || fixed_differ existing asked =
      subst
        (Holds (λ p.
          pvc_changed p asked
          ≡ (not resize_supported && size_differs before asked) || fixed_differ existing asked))
        left ((mutate_existing_pvc-changed env resize_supported asked existing before).at t) in
    simp (stored, own, there, built, marked) refl
