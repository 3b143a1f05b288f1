-- ===== src/Machine/Core.antt =====
-- The part of a state that the life of a machine turns on, and the steps that leave it alone.
pub mod Frames
use mathlib.Core.Path.{subst}
use cluster_api_provider_vmw.Base.{
  String, Bool, true, false, Option, List, [], ◌∷◌, ◌≡◌, refl, sym, ◌∙◌, if◌then◌else◌,
}
use cluster_api_provider_vmw.Api.Machine.{
  ObjectMeta, VdMachine, VdNetwork, MachineAddress, InitializationStatus,
}
use cluster_api_provider_vmw.Remote.{
  Call, create_vm, delete_vm, change_power_state, patch_machine, Env,
}
use cluster_api_provider_vmw.Program.{State, M, send, modify}
use cluster_api_provider_vmw.Program.Keeps.{Keeps}

-- The calls that create, start, stop, delete or store a machine.
abbrev pub is_lifecycle : Call → Bool
is_lifecycle (create_vm _ _) = true
is_lifecycle (delete_vm _) = true
is_lifecycle (change_power_state _ _) = true
is_lifecycle (patch_machine _) = true
is_lifecycle _ = false

abbrev pub lifecycle : List Call → List Call
lifecycle [] = []
lifecycle (c ∷ calls) = if is_lifecycle c then c ∷ lifecycle calls else lifecycle calls

pub record Core : Type 0 where
  pub meta : ObjectMeta
  pub provider_id : Option String
  pub vm_id : Option String
  pub network : Option VdNetwork
  pub ready : Bool
  pub addresses : List MachineAddress
  pub initialization : InitializationStatus
  pub state : Option String
  pub calls : List Call

abbrev pub core : State VdMachine → Core
core s = record {
  meta = s.object.meta;
  provider_id = s.object.spec.provider_id;
  vm_id = s.object.spec.vm_id;
  network = s.object.spec.network;
  ready = s.object.status.ready;
  addresses = s.object.status.addresses;
  initialization = s.object.status.initialization;
  state = s.object.status.state;
  calls = lifecycle s.calls;
}

pub record HasCore (c : Core) (s : State VdMachine) : Type 0 where
  pub same : core s ≡ c

-- The step leaves that part as it is, whatever its outcome.
abbrev pub Frame : {A : Type 0} → M VdMachine A → Type 0
Frame m = (c : Core) → Keeps (HasCore c) m

pub send-Frame : (E : Env) (call : Call) → is_lifecycle call ≡ false → Frame (send E call)
unfolding send
send-Frame E call e c = record { at = λ s h. record { same = rw e h.same } }

pub modify-Frame :
    (f : VdMachine → VdMachine)
    → ((s : State VdMachine) → core (record s { object = f s.object }) ≡ core s)
    → Frame (modify f)
unfolding modify
modify-Frame f e c = record { at = λ s h. record { same = e s ∙ h.same } }

-- A fact about the core.
pub record Holds (Q : Core → Type 0) (s : State VdMachine) : Type 0 where
  pub of : Q (core s)

-- A step that leaves the core alone keeps every fact about it.
pub Frame-Keeps : {A : Type 0} (Q : Core → Type 0) {m : M VdMachine A} → Frame m → Keeps (Holds Q) m
Frame-Keeps Q frame = record {
  at = λ s h. record {
    of = subst Q (sym ((frame (core s)).at s (record { same = refl })).same) h.of;
  };
}

pub modify-Keeps :
    (Q : Core → Type 0) (f : VdMachine → VdMachine)
    → ((s : State VdMachine) → Q (core s) → Q (core (record s { object = f s.object })))
    → Keeps (Holds Q) (modify f)
unfolding modify
modify-Keeps Q f k = record { at = λ s h. record { of = k s h.of } }
