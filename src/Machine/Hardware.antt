-- ===== src/Machine/Hardware.antt =====
-- `reconcileHardware`
pub mod Settles
use cluster_api_provider_vmw.Base.{
  String, Bool, true, ◌&&◌, Option, none, some, nat_eq, if◌then◌else◌,
}
use cluster_api_provider_vmw.Api.Machine.{Int32, VdMachine}
use cluster_api_provider_vmw.Remote.{update_vm, Env}
use cluster_api_provider_vmw.Program.{M, pure, deref, get, modify, send, or_wrap, ◌>>=◌}
use cluster_api_provider_vmw.Machine.Fields.{set_hardware}

-- `spec == nil || *spec == status`
abbrev pub is_configured : Option Int32 → Int32 → Bool
is_configured none actual = true
is_configured (some wanted) actual = nat_eq wanted actual

-- The value to send: the wanted one, or else the one that the machine has.
abbrev pub wanted_or : Option Int32 → Int32 → Int32
wanted_or none actual = actual
wanted_or (some wanted) actual = wanted

update_hardware : Env → String → Int32 → Int32 → M VdMachine (Unit {0})
update_hardware E vm_id cpu memory = do
  reply ← send E (update_vm vm_id cpu memory)
  result ← or_wrap "failed to update VM hardware: " reply
  cpu' ← deref result.processors
  memory' ← deref result.memory
  modify (set_hardware (record { cpu = cpu'; memory = memory' }))

unfoldable pub reconcile_hardware : Env → String → M VdMachine (Unit {0})
unfolding update_hardware
reconcile_hardware E vm_id = do
  m ← get
  let hardware = m.status.hardware
  if is_configured m.spec.cpu hardware.cpu && is_configured m.spec.memory hardware.memory
      then pure tt
      else update_hardware E vm_id (wanted_or m.spec.cpu hardware.cpu)
          (wanted_or m.spec.memory hardware.memory)
