-- ===== src/Kode/Claims.antt =====
-- What ensurePersistentVolumeClaim may change of a claim that exists.
use kode_operator.Prelude.{Bool, ◌≡◌, ◌⊎◌, inl, inr, refl, []}
use kode_operator.Go.Keeps.{Yields, yields_rules}
use kode_operator.Objects.{PersistentVolumeClaim, PersistentVolumeClaimSpec}
use kode_operator.Env.{Env}
use kode_operator.Kode.Ensure.{mutate_existing_pvc}

-- The claim `p` is for the volume of `existing`, and it asks for what `asked` asks for or for what
-- `before` asked for.
pub record Mutated (existing before p : PersistentVolumeClaim) (asked : PersistentVolumeClaimSpec)
    : Type 0 where
  pub access_modes : p.spec.access_modes ≡ existing.spec.access_modes
  pub volume_name : p.spec.volume_name ≡ existing.spec.volume_name
  pub storage_class_name : p.spec.storage_class_name ≡ existing.spec.storage_class_name
  pub resources : (p.spec.resources ≡ asked.resources) ⊎ (p.spec.resources ≡ before.spec.resources)
  pub bound : p.bound ≡ before.bound

-- The mutate function leaves the access modes, the volume's name and the storage class of an existing
-- claim as the API server has them, and its requests are the wanted ones or those that it had,
-- whether or not a resize is supported.
pub mutate_existing_pvc-Mutated :
    (env : Env) (resize_supported : Bool) (asked : PersistentVolumeClaimSpec)
    (existing before : PersistentVolumeClaim)
    → Yields
        (λ p. Mutated existing before p asked)
        (mutate_existing_pvc env resize_supported asked existing before)
unfolding mutate_existing_pvc
mutate_existing_pvc-Mutated env resize_supported asked existing before =
    search (yields_rules, kept, resized) depth 20
  where
    kept :
        Mutated existing before
          (record before {
            labels = [];
            annotations = [];
            spec = record (before.spec) {
              access_modes = existing.spec.access_modes;
              volume_name = existing.spec.volume_name;
              storage_class_name = existing.spec.storage_class_name;
            };
          })
          asked
    kept = record {
      access_modes = refl;
      volume_name = refl;
      storage_class_name = refl;
      resources = inr refl;
      bound = refl;
    }

    resized :
        Mutated existing before
          (record before {
            labels = [];
            annotations = [];
            spec = record (before.spec) {
              access_modes = existing.spec.access_modes;
              volume_name = existing.spec.volume_name;
              storage_class_name = existing.spec.storage_class_name;
              resources = asked.resources;
            };
          })
          asked
    resized = record {
      access_modes = refl;
      volume_name = refl;
      storage_class_name = refl;
      resources = inl refl;
      bound = refl;
    }
