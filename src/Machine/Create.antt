-- ===== src/Machine/Create.antt =====
-- `reconcileCreateVM`
use cluster_api_provider_vmw.Base.{String, some, ◌<>◌}
use cluster_api_provider_vmw.Api.Machine.{VdMachine}
use cluster_api_provider_vmw.Remote.{create_vm, Env}
use cluster_api_provider_vmw.Program.{
  M, pure, deref, get, modify, send, or_wrap, ◌>>=◌, ◌>>◌, Result, no_requeue,
}
use cluster_api_provider_vmw.Machine.Fields.{set_provider_id, set_vm_id, set_hardware}

-- `fmt.Sprintf("vmwaredesktop://%s", id)`
abbrev pub provider_id_of : String → String
provider_id_of id = "vmwaredesktop://" <> id

-- What is written before a nil pointer in the answer panics stays written.
unfoldable pub reconcile_create_vm : Env → M VdMachine Result
reconcile_create_vm E = do
  m ← get
  reply ← send E (create_vm m.meta.name m.spec.template_id)
  vm ← or_wrap "failed to create VM: " reply
  modify (set_provider_id (some (provider_id_of vm.id)))
  modify (set_vm_id (some vm.id))
  cpu ← deref vm.processors
  memory ← deref vm.memory
  modify (set_hardware (record { cpu = cpu; memory = memory }))
  pure no_requeue
