-- ===== src/Machine/Hardware/Settles.antt =====
-- What `reconcileHardware` comes to.
use cluster_api_provider_vmw.Base.{String, ◌≡◌, refl, some, List, arith, Option, none, true}
use cluster_api_provider_vmw.Api.Machine.{VdMachine, Int32}
use cluster_api_provider_vmw.Remote.{Call, update_vm, success, Env}
use cluster_api_provider_vmw.Program.{State, done, ◌>>=◌}
use cluster_api_provider_vmw.Machine.Hardware.{reconcile_hardware, wanted_or, is_configured}

-- The service answers an update with the values that were sent.
abbrev pub Echoes : Env → String → Type 0
Echoes E vm_id =
    (calls : List Call) (cpu memory : Int32)
    → E.answer calls (update_vm vm_id cpu memory)
      ≡ success (record { id = vm_id; processors = some cpu; memory = some memory })

is_configured_same :
    (wanted : Option Int32) (actual : Int32) → is_configured wanted (wanted_or wanted actual) ≡ true
is_configured_same none actual = refl
is_configured_same (some w) actual = ground arith

module _ (E : Env) (vm_id : String) where
  -- If the service answers an update with the values sent, the hardware step returns with the
  -- wanted values in the status, and the actual ones where none is wanted, and a second run changes
  -- nothing and makes no call.
  pub reconcile_hardware-settles :
      (s : State VdMachine)
      → Echoes E vm_id
      → (let s' : State VdMachine = (reconcile_hardware E vm_id s).1 in
          (reconcile_hardware E vm_id s).0 ≡ done tt
          × (s'.object.status.hardware.cpu
              ≡ wanted_or s.object.spec.cpu s.object.status.hardware.cpu)
          × (s'.object.status.hardware.memory
              ≡ wanted_or s.object.spec.memory s.object.status.hardware.memory)
          × (reconcile_hardware E vm_id s' ≡ (done tt, s')))
  unfolding reconcile_hardware ◌>>=◌
  reconcile_hardware-settles s echo =
      let answered =
        echo s.calls (wanted_or s.object.spec.cpu s.object.status.hardware.cpu)
          (wanted_or s.object.spec.memory s.object.status.hardware.memory) in
      let c = is_configured_same s.object.spec.cpu s.object.status.hardware.cpu in
      let m = is_configured_same s.object.spec.memory s.object.status.hardware.memory in grind arith
