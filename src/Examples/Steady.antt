-- ===== src/Examples/Steady.antt =====
-- A machine for which nothing is left to do, on a service that says that it is powered off.
use cluster_api_provider_vmw.Base.{◌≡◌, refl, ◌*◌, true, none, some, [], ◌∷◌, inr}
use cluster_api_provider_vmw.Api.Machine.{VdMachine, VdNetworkAdapter, Vnc}
use cluster_api_provider_vmw.Program.{State, done, requeue, second, ◌>>=◌}
use cluster_api_provider_vmw.Machine.Adapters.{contains_all, contains, same_adapter}
use cluster_api_provider_vmw.Machine.Folders.{shared_folders_equal, entries_agree, add_folders}
use cluster_api_provider_vmw.Machine.Reconcile.{handle}
use cluster_api_provider_vmw.Machine.Life.Steady.{IsSteady}
use cluster_api_provider_vmw.Machine.Life.Steady.Run.{rested, handle-IsSteady}
use cluster_api_provider_vmw.Examples.World.{
  start, world, fresh_status, linked_machine, linked_spec, sample_network, owner_machine,
  owner_cluster,
}
use cluster_api_provider_vmw.Examples.Steps.{world-IsConfigured}

abbrev nat_adapter : VdNetworkAdapter
nat_adapter = record { type = some "nat"; vmnet = some "vmnet8"; virtual_dev = none }

abbrev wanted_vnc : Vnc
wanted_vnc = record {
  enabled = some true;
  port = some "5901";
  password = none;
  generate_port = none;
  generate_password = none;
}

abbrev steady_machine : VdMachine
steady_machine = record linked_machine {
  spec = record linked_spec {
    network = some (record sample_network { adapters = some (nat_adapter ∷ []) });
    vnc = some wanted_vnc;
  };
  status = record fresh_status {
    addresses = record { type = "InternalIP"; address = "10.0.0.5" } ∷ [];
    initialization = record { provisioned = true; bootstrap_data_provided = true };
    hardware = record { cpu = 2; memory = 4096 };
    network_adapters = some (nat_adapter ∷ []);
    vnc = some wanted_vnc;
  };
}

steady_machine-IsSteady : IsSteady "A" steady_machine
unfolding contains_all contains same_adapter shared_folders_equal entries_agree add_folders ◌>>=◌
steady_machine-IsSteady = record {
  alive = refl;
  linked = refl;
  cpu = refl;
  memory = refl;
  adapters = inr (nat_adapter ∷ [], refl, λ s. refl);
  no_pools = (refl, tt);
  folders = refl;
  vnc = inr (record {
    spec = wanted_vnc;
    spec_is = refl;
    port = refl;
    password = refl;
    status = wanted_vnc;
    status_is = refl;
    agree = (λ b e. e, λ p e. e, λ p e. e);
  });
  provided = refl;
  addresses = refl;
}

handle-IsSteady_example :
    (let s : State VdMachine =
        rested (world steady_machine) "A" "poweredOff" "poweredOn" (start steady_machine) in
      (handle (world steady_machine) owner_cluster owner_machine (start steady_machine)
        ≡ (done (requeue (10 * second)), s))
      × IsSteady "A" s.object)
handle-IsSteady_example =
    handle-IsSteady (world steady_machine) "A" owner_cluster owner_machine "set" "set" "set"
      "poweredOff" "poweredOn" (start steady_machine) (world-IsConfigured steady_machine) refl
      steady_machine-IsSteady refl (λ calls m. refl) (λ calls. refl)
