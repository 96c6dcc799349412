-- ===== src/Kode/Current.antt =====
-- A StatefulSet that is what ensureStatefulSet writes, and pods that run its images.
use kode_operator.Prelude.{
  String, str_eq_refl, Bool, true, false, not, some, List, [], ◌∷◌, map, all, ◌≡◌, refl, inl, inr,
  Bool-cases, false≢true,
}
use kode_operator.Go.{ok, done, ◌>>=◌, ◌>>◌, pure, if_failed, deref, when}
use kode_operator.Api.{ContainerTemplateSharedSpec}
use kode_operator.Api.Names.{get_stateful_set_name}
use kode_operator.Objects.{Container, Pod, StatefulSet, StatefulSetSpec}
use kode_operator.Env.{Env, St, get, ask}
use kode_operator.Kode.Config.{KodeResourceConfig}
use kode_operator.Kode.StatefulSet.{construct_stateful_set_spec}
use kode_operator.Kode.Changes.{images_differ, delete_outdated_pods, detect_stateful_set_changes}

pub images_differ-same :
    (cs : List Container) → images_differ (map (λ (c : Container). c.image) cs) cs ≡ false
unfolding images_differ
images_differ-same [] = refl
images_differ-same (c ∷ cs) = simp (str_eq_refl, images_differ-same cs) refl

-- The pod runs the images of the containers.
abbrev pub is_current : List Container → Pod → Bool
is_current cs p = not (images_differ p.images cs)

pub delete_outdated_pods-current :
    (env : Env) (namespace : String) (cs : List Container) (ps : List Pod) (b : Bool) (s : St)
    → all (is_current cs) ps ≡ true
    → delete_outdated_pods env namespace cs ps b s ≡ (done b, s)
unfolding delete_outdated_pods all pure when ◌>>=◌ ◌>>◌
delete_outdated_pods-current env namespace cs [] b s h = refl
delete_outdated_pods-current env namespace cs (p ∷ ps) b s h =
    elim (Bool-cases (images_differ p.images cs)) [
      | inl d ↦ elim (false≢true (rw d at h)) [ ]
      | inr d ↦
          let h' : all (is_current cs) ps ≡ true = rw d at h in
          rw d (delete_outdated_pods-current env namespace cs ps b s h')
    ]

-- If the StatefulSet has the spec that constructStatefulSetSpec makes, and every pod runs the images of its
-- containers, then detectStatefulSetChanges reports no change, deletes no pod and leaves everything as it is.
pub detect_stateful_set_changes-written :
    (env : Env) (c : KodeResourceConfig) (t : ContainerTemplateSharedSpec) (s : St)
    (x : StatefulSet) (spec : StatefulSetSpec) (ps : List Pod)
    → c.template.container_template_spec ≡ some t
    → construct_stateful_set_spec env s.kode c t ≡ ok spec
    → env.get_stateful_set s.calls (get_stateful_set_name s.kode) s.kode.namespace
      ≡ ok (record x { spec = spec })
    → env.list_pods s.calls s.kode.namespace c.labels ≡ ok ps
    → all (is_current spec.template.containers) ps ≡ true
    → detect_stateful_set_changes env c s ≡ (done (ok false), s)
unfolding detect_stateful_set_changes ◌>>=◌ get ask if_failed pure deref construct_stateful_set_spec
detect_stateful_set_changes-written env c t s x spec ps templ built there pods current =
    rw
      (
        there,
        templ,
        built,
        pods,
        images_differ-same spec.template.containers,
        str_eq_refl,
        delete_outdated_pods-current env s.kode.namespace spec.template.containers ps false s
            current,
      )
      refl
