-- ===== src/Machine/Life/Sound.antt =====
-- Every step keeps a machine sound, and starts it only with its bootstrap data.
use cluster_api_provider_vmw.Base.{
  ◌≡◌, refl, String, true, none, some, List, [], ◌∷◌, any, arith, nat_eq, ltb, length,
}
use cluster_api_provider_vmw.Api.Machine.{VdMachine, MachineAddress}
use cluster_api_provider_vmw.Remote.{
  OwnerMachine, OwnerCluster, NicIpStack, Http, success, failure, get_nic_info, get_power_state,
  Env,
}
use cluster_api_provider_vmw.Program.{
  Outcome, done, fail, panic, exit, finish, deferred, State, M, ◌>>=◌,
}
use cluster_api_provider_vmw.Program.Keeps.{
  Keeps, Keeps-pure, Keeps-raise, Keeps-crash, Keeps-bind, Keeps-option, Keeps-if, Keeps-get,
  Keeps-then, Then, Keeps-bind_ensures,
}
use cluster_api_provider_vmw.Machine.Core.{Core, Holds, send-Frame, Frame-Keeps, modify-Keeps}
use cluster_api_provider_vmw.Machine.Core.Frames.{
  new_vd_client-Frame, reconcile_hardware-Frame, reconcile_network_adapters-Frame,
  reconcile_network_addresses-Frame, reconcile_shared_folders-Frame, reconcile_vnc-Frame,
  send_bootstrap_data-Frame, extract_addresses-Frame,
}
use cluster_api_provider_vmw.Machine.Fields.{set_state}
use cluster_api_provider_vmw.Machine.Create.{reconcile_create_vm}
use cluster_api_provider_vmw.Machine.Power.{reconcile_power_state}
use cluster_api_provider_vmw.Machine.Addresses.{
  after_nic_info, store_addresses, reconcile_addresses,
}
use cluster_api_provider_vmw.Machine.Bootstrap.{provide_bootstrap_data, reconcile_bootstrap_data}
use cluster_api_provider_vmw.Machine.Delete.{delete_known, release, reconcile_delete}
use cluster_api_provider_vmw.Machine.Normal.{
  start_machine, update_machine, create_or_update, may_start, hold, reconcile_normal,
}
use cluster_api_provider_vmw.Machine.Reconcile.{
  patch_now, patch, dispatch, unlink, after_observe, handle,
}
use cluster_api_provider_vmw.Machine.Life.{IsLink, IsReport, StoredSound, is_power_on}

-- The machine is sound, so is what was stored, and a power-on was sent only with bootstrap data.
pub record Sound (c : Core) : Type 0 where
  pub linked : IsLink c.provider_id c.vm_id
  pub reported : IsReport c.ready c.initialization c.addresses c.network
  pub powered : any is_power_on c.calls ≡ true → c.initialization.bootstrap_data_provided ≡ true
  pub stored : StoredSound c.calls

record Provided (c : Core) : Type 0 where
  sound : Sound c
  provided : c.initialization.bootstrap_data_provided ≡ true

module _ (E : Env) where
  create_vm-Sound : Keeps (Holds Sound) (reconcile_create_vm E)
  unfolding reconcile_create_vm ◌>>=◌
  create_vm-Sound = record { at = λ s h. ground arith }

  power_state-Provided : (vm_id : String) → Keeps (Holds Provided) (reconcile_power_state E vm_id)
  unfolding reconcile_power_state ◌>>=◌
  power_state-Provided vm_id = record { at = λ s h. ground arith }

  -- The bootstrap step returns only with the data provided.
  bootstrap-Provided :
      (vm_id : String) (owner : OwnerMachine) (s : State VdMachine)
      → Holds Sound s
      → Then (Holds Sound) (Holds Provided) (reconcile_bootstrap_data E vm_id owner s)
  unfolding reconcile_bootstrap_data provide_bootstrap_data ◌>>=◌
  bootstrap-Provided vm_id owner s h =
      grind (arith, (Frame-Keeps Sound (send_bootstrap_data-Frame E vm_id owner)).at s h)

  store_addresses-Provided :
      (addresses : List MachineAddress) → Keeps (Holds Provided) (store_addresses addresses)
  unfolding store_addresses ◌>>=◌
  store_addresses-Provided addresses = record { at = λ s h. ground arith }

  after_nic_info-Provided :
      (reply : Http (List NicIpStack)) → Keeps (Holds Provided) (after_nic_info reply)
  unfolding after_nic_info
  after_nic_info-Provided (failure none e) = Keeps-crash
  after_nic_info-Provided (failure (some code) e) =
      Keeps-if (nat_eq code 500) _ _ (Keeps-pure _) (Keeps-raise _)
  after_nic_info-Provided (success []) = Keeps-pure _
  after_nic_info-Provided (success (nic ∷ nics)) =
      Keeps-bind _ _ (Frame-Keeps Provided (extract_addresses-Frame (nic ∷ nics)))
        store_addresses-Provided

  addresses-Provided : (vm_id : String) → Keeps (Holds Provided) (reconcile_addresses E vm_id)
  unfolding reconcile_addresses
  addresses-Provided vm_id = Keeps-get _ λ m.
      Keeps-if (ltb 0 (length m.status.addresses)) _ _ (Keeps-pure _) (
        Keeps-bind _ _ (Frame-Keeps Provided (send-Frame E (get_nic_info vm_id) refl))
          after_nic_info-Provided)

  start_machine-Sound :
      (vm_id : String) (owner : OwnerMachine) → Keeps (Holds Sound) (start_machine E vm_id owner)
  unfolding start_machine
  start_machine-Sound vm_id owner =
      Keeps-bind_ensures _ _ (bootstrap-Provided vm_id owner) (λ s h. record { of = h.of.sound })
        λ _.
          Keeps-bind _ _ (power_state-Provided vm_id)
            λ _. Keeps-then _ _ (addresses-Provided vm_id) (Keeps-pure _)

  update_machine-Sound :
      (vm_id : String) (owner : OwnerMachine) → Keeps (Holds Sound) (update_machine E vm_id owner)
  unfolding update_machine
  update_machine-Sound vm_id owner =
      Keeps-bind _ _ (Frame-Keeps Sound (reconcile_hardware-Frame E vm_id)) λ _.
        Keeps-then _ _ (Frame-Keeps Sound (reconcile_network_adapters-Frame E vm_id)) (
          Keeps-then _ _ (Frame-Keeps Sound (reconcile_network_addresses-Frame E)) (
            Keeps-then _ _ (Frame-Keeps Sound (reconcile_shared_folders-Frame E vm_id)) (
              Keeps-then _ _ (Frame-Keeps Sound (reconcile_vnc-Frame E vm_id))
                (start_machine-Sound vm_id owner))))

  normal-Sound :
      (cluster : OwnerCluster) (owner : OwnerMachine)
      → Keeps (Holds Sound) (reconcile_normal E cluster owner)
  unfolding reconcile_normal create_or_update
  normal-Sound cluster owner =
      Keeps-bind _ _ (modify-Keeps Sound (hold E) (λ s h. ground arith)) λ _.
        Keeps-if (may_start cluster owner) _ _
          (Keeps-bind _ _ (Frame-Keeps Sound (new_vd_client-Frame E)) λ _. Keeps-get _ λ m.
            Keeps-option m.spec.vm_id _ _ create_vm-Sound
              (λ vm_id. update_machine-Sound vm_id owner))
          (Keeps-pure _)

  delete_known-Sound : (vm_id : String) → Keeps (Holds Sound) (delete_known E vm_id)
  unfolding delete_known ◌>>=◌
  delete_known-Sound vm_id = record { at = λ s h. ground arith }

  delete-Sound : Keeps (Holds Sound) (reconcile_delete E)
  unfolding reconcile_delete
  delete-Sound = Keeps-get _ λ m.
      Keeps-option m.spec.vm_id _ _
        (Keeps-bind _ _ (modify-Keeps Sound (release E) (λ s h. ground arith)) (λ _. Keeps-pure _))
        (λ vm_id.
          Keeps-bind _ _ (Frame-Keeps Sound (new_vd_client-Frame E))
            (λ _. delete_known-Sound vm_id))

  dispatch-Sound :
      (cluster : OwnerCluster) (owner : OwnerMachine)
      → Keeps (Holds Sound) (dispatch E cluster owner)
  unfolding dispatch
  dispatch-Sound cluster owner =
      Keeps-get _ λ m. Keeps-if m.meta.deleted _ _ delete-Sound (normal-Sound cluster owner)

  -- The patch stores the machine as it is.
  patch_now-Sound : (s : State VdMachine) → Holds Sound s → Holds Sound (patch_now E s).1
  unfolding patch_now
  patch_now-Sound s h = ground arith

  patch-Sound : Keeps (Holds Sound) (patch E)
  unfolding patch
  patch-Sound = record { at = patch_now-Sound }

  finish-Sound :
      {A : Type 0} (r : Outcome A) (s : State VdMachine)
      → Holds Sound s
      → Holds Sound (finish (patch_now E) r s).1
  finish-Sound (done a) s h = patch_now-Sound s h
  finish-Sound (fail e) s h = patch_now-Sound s h
  finish-Sound panic s h = patch_now-Sound s h
  finish-Sound exit s h = h

  observed-Sound :
      (cluster : OwnerCluster) (owner : OwnerMachine) (state : String)
      → Keeps (Holds Sound) (after_observe E cluster owner (success state))
  unfolding after_observe
  observed-Sound cluster owner state =
      Keeps-bind _ _ (modify-Keeps Sound (set_state (some state)) (λ s h. ground arith)) λ _.
        Keeps-bind _ _ patch-Sound
          λ error. Keeps-option error _ _ (dispatch-Sound cluster owner) Keeps-raise

  after_observe-Sound :
      (cluster : OwnerCluster) (owner : OwnerMachine) (reply : Http String)
      → Keeps (Holds Sound) (after_observe E cluster owner reply)
  unfolding after_observe
  after_observe-Sound cluster owner (success state) = observed-Sound cluster owner state
  after_observe-Sound cluster owner (failure none e) = Keeps-crash
  after_observe-Sound cluster owner (failure (some code) e) =
      Keeps-if (nat_eq code 404) _ _
        (Keeps-bind _ _ (modify-Keeps Sound unlink (λ s h. ground arith)) (λ _. Keeps-pure _))
        (Keeps-raise e)

  -- Every run of the handler keeps a machine sound, whatever the answers and the outcome.
  pub handle-Sound :
      (cluster : OwnerCluster) (owner : OwnerMachine) → Keeps (Holds Sound) (handle E cluster owner)
  unfolding handle
  handle-Sound cluster owner = Keeps-bind _ _ (Frame-Keeps Sound (new_vd_client-Frame E)) λ _.
      Keeps-get _ λ m. Keeps-option m.spec.vm_id _ _ (dispatch-Sound cluster owner) (λ vm_id.
        Keeps-bind _ _ (Frame-Keeps Sound (send-Frame E (get_power_state vm_id) refl))
          (after_observe-Sound cluster owner))

  pub deferred-Sound :
      {A : Type 0} (m : M VdMachine A)
      → Keeps (Holds Sound) m
      → Keeps (Holds Sound) (deferred (patch_now E) m)
  unfolding deferred
  deferred-Sound m k = record { at = λ s h. finish-Sound (m s).0 (m s).1 (k.at s h) }
