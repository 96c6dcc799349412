-- ===== src/Kode/Phases/Keeps.antt =====
-- Being within one move of a phase is kept by whatever does not set the phase.
use kode_operator.Api.{Phase}
use kode_operator.Env.{St}
use kode_operator.KodeObject.{set_status}
use kode_operator.Kode.Ensure.{set_credentials}
use kode_operator.Kode.Frame.{
  Stable, Edit, edit, to_runtime, to_credentials, to_error, to_condition, Calm, Count, count_status,
  to_port, to_generation, to_retry, to_cycle,
}
use kode_operator.Kode.Phases.{InMove}

module _ {p : Phase} where
  InMove-Stable : Stable (InMove p)
  unfolding set_credentials
  InMove-Stable = record {
    calling = λ c s m h. h;
    editing = edits;
    caching = λ cache fetched s h. h;
  }
    where
      edits : (e : Edit) (s : St) → InMove p s → InMove p (record s { kode = edit e s.kode })
      edits (to_runtime r) s h = h
      edits (to_credentials c) s h = h
      edits (to_error e t) s h = h
      edits (to_condition n t st r m) s h = h

  pub InMove-Calm : Calm (InMove p)
  InMove-Calm = record { stable = InMove-Stable; counting = counts }
    where
      counts :
          (c : Count) (s : St)
          → InMove p s
          → InMove p (record s { kode = set_status (count_status c) s.kode })
      counts (to_port n) s h = h
      counts (to_generation n) s h = h
      counts (to_retry n) s h = h
      counts (to_cycle n) s h = h
