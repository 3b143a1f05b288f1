-- ===== src/Examples/Ready.antt =====
-- A new machine in a world that serves it.
use cluster_api_provider_vmw.Base.{◌≡◌, refl, false, [], ◌∷◌, ◌*◌, arith, lookup}
use cluster_api_provider_vmw.Text.Ip.{parse_cidr}
use cluster_api_provider_vmw.Api.Machine.{VdMachine}
use cluster_api_provider_vmw.Program.{State, done, no_requeue, requeue, millisecond, second}
use cluster_api_provider_vmw.Machine.Reconcile.{handle}
use cluster_api_provider_vmw.Machine.Life.Ready.{IsPlain, Serves}
use cluster_api_provider_vmw.Machine.Life.Ready.Steps.{Comes}
use cluster_api_provider_vmw.Machine.Life.Ready.Last.{IsUp}
use cluster_api_provider_vmw.Machine.Life.Ready.Up.{linked, handle-ready}
use cluster_api_provider_vmw.Examples.World.{
  start, world, fresh_machine, fresh_spec, sample_network, owner_machine, owner_cluster,
}
use cluster_api_provider_vmw.Examples.Steps.{world-IsConfigured}

world-Serves : Serves (world fresh_machine) "A" sample_network
unfolding lookup parse_cidr
world-Serves = record {
  echoes = λ calls cpu memory. refl;
  devices = λ calls. (_, refl);
  params = λ calls key. (_, refl);
  configures = λ calls name value. refl;
  tells_state = λ calls. (_, refl);
  powers_on = λ calls. (_, refl);
  nic = record { ip = "10.0.0.5/24" ∷ [] };
  nics = [];
  informs = λ calls. refl;
  no_more_nics = omega arith;
  enough = refl;
  stores = λ calls m. refl;
  secret = λ calls key. (_, "id: x", refl, refl);
  no_pool_address = λ calls key. (_, refl);
}

sample-IsPlain : IsPlain fresh_spec sample_network
sample-IsPlain = record {
  networked = refl;
  no_adapters = refl;
  no_pools = (refl, tt);
  ipv4_only = (refl, tt);
  no_folders = refl;
  no_vnc = refl;
}

abbrev first : State VdMachine
first = start fresh_machine

handle-ready_example :
    (let s1 : State VdMachine =
        (handle (world fresh_machine) owner_cluster owner_machine first).1 in
      let s2 : State VdMachine = (handle (world fresh_machine) owner_cluster owner_machine s1).1 in
      ((handle (world fresh_machine) owner_cluster owner_machine first).0 ≡ done no_requeue)
      × (s1.object.spec ≡ linked "A" fresh_spec)
      × ((handle (world fresh_machine) owner_cluster owner_machine s1).0
          ≡ done (requeue millisecond))
      × Comes
          (requeue (10 * second))
          (IsUp
            (world fresh_machine)
            "A"
            sample_network
            (linked "A" fresh_spec)
            (world-Serves.nic ∷ world-Serves.nics))
          (handle (world fresh_machine) owner_cluster owner_machine s2))
handle-ready_example =
    handle-ready (world fresh_machine) "A" sample_network fresh_spec owner_cluster owner_machine
      "secret" "set" "set" "set" false first world-Serves sample-IsPlain
      (λ calls name template. (_, _, refl)) (world-IsConfigured fresh_machine) refl refl refl
      (refl, refl, refl, refl, refl, refl, refl, refl)
