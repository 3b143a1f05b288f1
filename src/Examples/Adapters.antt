-- ===== src/Examples/Adapters.antt =====
-- A machine whose adapter has just been made.
use cluster_api_provider_vmw.Base.{◌≡◌, refl, some, none, List, [], ◌∷◌, map}
use cluster_api_provider_vmw.Api.Machine.{VdMachine, VdNetworkAdapter}
use cluster_api_provider_vmw.Remote.{NicDevice, get_all_nic_devices}
use cluster_api_provider_vmw.Program.{State, done, no_requeue, requeue, millisecond}
use cluster_api_provider_vmw.Machine.Fields.{set_adapters}
use cluster_api_provider_vmw.Machine.Adapters.{adapter_of, reconcile_network_adapters}
use cluster_api_provider_vmw.Machine.Adapters.Settles.{reconcile_network_adapters-rests}
use cluster_api_provider_vmw.Examples.World.{
  start, world, linked_machine, linked_spec, fresh_status, sample_network,
}

abbrev wanted : VdNetworkAdapter
wanted = record { type = some "nat"; vmnet = some "vmnet8"; virtual_dev = some "e1000" }

abbrev other : VdNetworkAdapter
other = record { type = some "bridged"; vmnet = some "vmnet0"; virtual_dev = none }

abbrev listed : List NicDevice
listed = record { type = "nat"; vmnet = "vmnet8" } ∷ []

abbrev before : State VdMachine
before = start (record linked_machine {
  spec = record linked_spec {
    network = some (record sample_network { adapters = some (wanted ∷ []) });
  };
  status = record fresh_status { network_adapters = some (other ∷ []) };
})

reconcile_network_adapters-rests_example :
    (let t : State VdMachine = record {
      object = set_adapters (some (map adapter_of listed)) before.object;
      calls = get_all_nic_devices "A" ∷ [];
    } in
      (reconcile_network_adapters (world linked_machine) "A" before
        ≡ (done (requeue millisecond), t))
      × (reconcile_network_adapters (world linked_machine) "A" t ≡ (done no_requeue, t)))
reconcile_network_adapters-rests_example =
    reconcile_network_adapters-rests (world linked_machine) "A" listed (wanted ∷ []) before
      ((refl, refl), tt) ((refl, refl), tt) refl refl refl refl
