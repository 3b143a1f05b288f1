-- ===== src/Machine/Fields.antt =====
-- Writes to one field of the machine.
use cluster_api_provider_vmw.Base.{String, Option, List}
use cluster_api_provider_vmw.Api.Machine.{
  VdHardware, VdMachine, VdMachineSpec, VdMachineStatus, VdNetworkAdapter, VdSharedFolder, Vnc,
}

abbrev pub with_spec : (VdMachineSpec → VdMachineSpec) → VdMachine → VdMachine
with_spec f m = record m { spec = f m.spec }

abbrev pub with_status : (VdMachineStatus → VdMachineStatus) → VdMachine → VdMachine
with_status f m = record m { status = f m.status }

abbrev pub set_provider_id : Option String → VdMachine → VdMachine
set_provider_id id = with_spec λ spec. record spec { provider_id = id }

abbrev pub set_vm_id : Option String → VdMachine → VdMachine
set_vm_id id = with_spec λ spec. record spec { vm_id = id }

abbrev pub set_hardware : VdHardware → VdMachine → VdMachine
set_hardware hardware = with_status λ status. record status { hardware = hardware }

abbrev pub set_state : Option String → VdMachine → VdMachine
set_state state = with_status λ status. record status { state = state }

abbrev pub set_adapters : Option (List VdNetworkAdapter) → VdMachine → VdMachine
set_adapters adapters = with_status λ status. record status { network_adapters = adapters }

abbrev pub set_shared_folders : List VdSharedFolder → VdMachine → VdMachine
set_shared_folders folders = with_status λ status. record status { shared_folders = folders }

abbrev pub set_vnc_status : Option Vnc → VdMachine → VdMachine
set_vnc_status vnc = with_status λ status. record status { vnc = vnc }

abbrev pub set_vnc_spec : Option Vnc → VdMachine → VdMachine
set_vnc_spec vnc = with_spec λ spec. record spec { vnc = vnc }
