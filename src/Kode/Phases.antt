-- ===== src/Kode/Phases.antt =====
-- The phases that the handlers may go to.
pub mod Handlers
pub mod Keeps
pub mod Machine
use kode_operator.Prelude.{Option, none, some}
use kode_operator.Go.{Error}
use kode_operator.Api.{
  Phase, pending, configuring, provisioning, active, updating, deleting, failed, phase_unknown,
}
use kode_operator.Env.{St}
use kode_operator.StateMachine.{CtrlResult, Next}

-- The edges of the machine. No edge leads to `failed`, and none leaves `deleting`.
pub data Edge : Phase → Phase → Type 0 where
  configure : Edge pending configuring
  provision : Edge configuring provisioning
  provisioned : Edge provisioning active
  update : Edge active updating
  updated : Edge updating active
  recover_pending : Edge failed pending
  recover_configuring : Edge failed configuring
  recover_provisioning : Edge failed provisioning
  resolve_deleting : Edge phase_unknown deleting
  resolve_pending : Edge phase_unknown pending
  resolve_configuring : Edge phase_unknown configuring
  resolve_provisioning : Edge phase_unknown provisioning
  resolve_active : Edge phase_unknown active
  resolve_updating : Edge phase_unknown updating

-- One run of the machine: it stays, or takes one edge.
pub data Moves (p : Phase) : Phase → Type 0 where
  stay : Moves p p
  along : {q : Phase} → Edge p q → Moves p q

-- What a handler may return in phase `p`: without an error, a phase that is one move away; with
-- an error, any phase.
pub data NextOf (p : Phase) : Next → Type 0 where
  moves : (q : Phase) (r : CtrlResult) → Moves p q → NextOf p (q, r, none)
  fails : (q : Phase) (r : CtrlResult) (e : Error) → NextOf p (q, r, some e)

-- The Kode in memory is in a phase that is one move away.
abbrev pub InMove : Phase → St → Type 0
InMove p s = Moves p s.kode.status.phase
