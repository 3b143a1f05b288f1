-- ===== src/Machine/Normal.antt =====
-- `reconcileNormal`
use cluster_api_provider_vmw.Base.{
  String, Bool, false, none, some, ◌*◌, is_some, ◌&&◌, if◌then◌else◌,
}
use cluster_api_provider_vmw.Api.Machine.{VdMachine, machine_finalizer}
use cluster_api_provider_vmw.Remote.{OwnerMachine, OwnerCluster, Env}
use cluster_api_provider_vmw.Program.{
  M, pure, get, modify, ◌>>=◌, ◌>>◌, Result, no_requeue, requeue, second, ◌then_unless_requeue◌,
}
use cluster_api_provider_vmw.Client.{new_vd_client}
use cluster_api_provider_vmw.Machine.Create.{reconcile_create_vm}
use cluster_api_provider_vmw.Machine.Hardware.{reconcile_hardware}
use cluster_api_provider_vmw.Machine.Adapters.{reconcile_network_adapters}
use cluster_api_provider_vmw.Machine.Ipam.{reconcile_network_addresses}
use cluster_api_provider_vmw.Machine.Folders.{reconcile_shared_folders}
use cluster_api_provider_vmw.Machine.Vnc.{reconcile_vnc}
use cluster_api_provider_vmw.Machine.Bootstrap.{reconcile_bootstrap_data}
use cluster_api_provider_vmw.Machine.Power.{reconcile_power_state}
use cluster_api_provider_vmw.Machine.Addresses.{reconcile_addresses}

-- `InfrastructureProvisioned == nil || !*InfrastructureProvisioned`, negated.
abbrev pub is_provisioned : OwnerCluster → Bool
is_provisioned cluster = elim cluster.infrastructure_provisioned [ none ↦ false | some b ↦ b ]

-- The cluster is there, and so is the name of the secret.
abbrev pub may_start : OwnerCluster → OwnerMachine → Bool
may_start cluster owner = is_provisioned cluster && is_some owner.data_secret_name

-- `controllerutil.AddFinalizer(vdMachine, infrav1.MachineFinalizer)`
abbrev pub hold : Env → VdMachine → VdMachine
hold E m = record m {
  meta = record (m.meta) { finalizers = E.add_finalizer machine_finalizer m.meta.finalizers };
}

module _ (E : Env) where
  -- The steps that bring a machine up, behind the one for its network adapters.
  unfoldable pub start_machine : String → OwnerMachine → M VdMachine Result
  start_machine vm_id owner = do
    reconcile_bootstrap_data E vm_id owner
    reconcile_power_state E vm_id
    reconcile_addresses E vm_id then_unless_requeue pure (requeue (10 * second))

  -- The steps for a machine that exists.
  unfoldable pub update_machine : String → OwnerMachine → M VdMachine Result
  update_machine vm_id owner = do
    reconcile_hardware E vm_id
    reconcile_network_adapters E vm_id
        then_unless_requeue (reconcile_network_addresses E
            then_unless_requeue (reconcile_shared_folders E vm_id
                then_unless_requeue (reconcile_vnc E vm_id
                    then_unless_requeue start_machine vm_id owner)))

  -- The part behind the two tests.
  unfoldable pub create_or_update : OwnerMachine → M VdMachine Result
  create_or_update owner = do
    new_vd_client E
    m ← get
    elim m.spec.vm_id [ none ↦ reconcile_create_vm E | some vm_id ↦ update_machine vm_id owner ]

  unfoldable pub reconcile_normal : OwnerCluster → OwnerMachine → M VdMachine Result
  reconcile_normal cluster owner = do
    modify (hold E)
    if may_start cluster owner then create_or_update owner else pure no_requeue
