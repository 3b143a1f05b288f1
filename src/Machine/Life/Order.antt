-- ===== src/Machine/Life/Order.antt =====
-- The steps for a machine that exists neither create nor delete a machine.
use cluster_api_provider_vmw.Base.{
  ◌≡◌, refl, String, Bool, none, some, List, [], ◌∷◌, any, arith, nat_eq, ltb, length,
}
use cluster_api_provider_vmw.Api.Machine.{ObjectMeta, MachineAddress}
use cluster_api_provider_vmw.Remote.{
  OwnerMachine, NicIpStack, Http, success, failure, get_nic_info, Env,
}
use cluster_api_provider_vmw.Program.{◌>>=◌}
use cluster_api_provider_vmw.Program.Keeps.{
  Keeps, Keeps-pure, Keeps-raise, Keeps-crash, Keeps-bind, Keeps-if, Keeps-get, Keeps-then,
}
use cluster_api_provider_vmw.Machine.Core.{Core, Holds, send-Frame, Frame-Keeps, modify-Keeps}
use cluster_api_provider_vmw.Machine.Core.Frames.{
  reconcile_hardware-Frame, reconcile_network_adapters-Frame, reconcile_network_addresses-Frame,
  reconcile_shared_folders-Frame, reconcile_vnc-Frame, send_bootstrap_data-Frame,
  extract_addresses-Frame,
}
use cluster_api_provider_vmw.Machine.Power.{reconcile_power_state}
use cluster_api_provider_vmw.Machine.Addresses.{
  after_nic_info, store_addresses, reconcile_addresses,
}
use cluster_api_provider_vmw.Machine.Bootstrap.{
  provide_bootstrap_data, mark_provided, reconcile_bootstrap_data,
}
use cluster_api_provider_vmw.Machine.Delete.Ends.{is_delete}
use cluster_api_provider_vmw.Machine.Life.{is_create}
use cluster_api_provider_vmw.Machine.Normal.{start_machine, update_machine}

-- What an action leaves alone if it neither creates nor deletes a machine.
pub record HasDeeds (meta : ObjectMeta) (created deleted : Bool) (c : Core) : Type 0 where
  pub meta_same : c.meta ≡ meta
  pub created_same : any is_create c.calls ≡ created
  pub deleted_same : any is_delete c.calls ≡ deleted

module _ (E : Env) (meta : ObjectMeta) (created deleted : Bool) where
  abbrev pub Q : Core → Type 0
  Q = HasDeeds meta created deleted

  bootstrap_data-HasDeeds :
      (vm_id : String) (owner : OwnerMachine)
      → Keeps (Holds Q) (reconcile_bootstrap_data E vm_id owner)
  unfolding reconcile_bootstrap_data provide_bootstrap_data
  bootstrap_data-HasDeeds vm_id owner = Keeps-get _ λ m.
      Keeps-if m.status.initialization.bootstrap_data_provided _ _ (Keeps-pure _) (
        Keeps-bind _ _ (Frame-Keeps Q (send_bootstrap_data-Frame E vm_id owner))
          λ _. modify-Keeps Q mark_provided (λ s h. ground arith))

  power_state-HasDeeds : (vm_id : String) → Keeps (Holds Q) (reconcile_power_state E vm_id)
  unfolding reconcile_power_state ◌>>=◌
  power_state-HasDeeds vm_id = record { at = λ s h. ground arith }

  store_addresses-HasDeeds :
      (addresses : List MachineAddress) → Keeps (Holds Q) (store_addresses addresses)
  unfolding store_addresses ◌>>=◌
  store_addresses-HasDeeds addresses = record { at = λ s h. ground arith }

  after_nic_info-HasDeeds :
      (reply : Http (List NicIpStack)) → Keeps (Holds Q) (after_nic_info reply)
  unfolding after_nic_info
  after_nic_info-HasDeeds (failure none e) = Keeps-crash
  after_nic_info-HasDeeds (failure (some code) e) =
      Keeps-if (nat_eq code 500) _ _ (Keeps-pure _) (Keeps-raise _)
  after_nic_info-HasDeeds (success []) = Keeps-pure _
  after_nic_info-HasDeeds (success (nic ∷ nics)) =
      Keeps-bind _ _ (Frame-Keeps Q (extract_addresses-Frame (nic ∷ nics))) store_addresses-HasDeeds

  addresses-HasDeeds : (vm_id : String) → Keeps (Holds Q) (reconcile_addresses E vm_id)
  unfolding reconcile_addresses
  addresses-HasDeeds vm_id = Keeps-get _ λ m.
      Keeps-if (ltb 0 (length m.status.addresses)) _ _ (Keeps-pure _) (
        Keeps-bind _ _ (Frame-Keeps Q (send-Frame E (get_nic_info vm_id) refl))
          after_nic_info-HasDeeds)

  pub update_machine-HasDeeds :
      (vm_id : String) (owner : OwnerMachine) → Keeps (Holds Q) (update_machine E vm_id owner)
  unfolding update_machine start_machine
  update_machine-HasDeeds vm_id owner =
      Keeps-bind _ _ (Frame-Keeps Q (reconcile_hardware-Frame E vm_id)) λ _.
        Keeps-then _ _ (Frame-Keeps Q (reconcile_network_adapters-Frame E vm_id)) (
          Keeps-then _ _ (Frame-Keeps Q (reconcile_network_addresses-Frame E)) (
            Keeps-then _ _ (Frame-Keeps Q (reconcile_shared_folders-Frame E vm_id)) (
              Keeps-then _ _ (Frame-Keeps Q (reconcile_vnc-Frame E vm_id)) (
                Keeps-bind _ _ (bootstrap_data-HasDeeds vm_id owner) λ _.
                  Keeps-bind _ _ (power_state-HasDeeds vm_id)
                    λ _. Keeps-then _ _ (addresses-HasDeeds vm_id) (Keeps-pure _)))))
