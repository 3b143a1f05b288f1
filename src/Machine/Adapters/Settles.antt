-- ===== src/Machine/Adapters/Settles.antt =====
-- When the network adapters come to rest.
use cluster_api_provider_vmw.Base.{
  ℕ, suc, String, ◌≡◌, refl, ◌∙◌, true, false, some, List, [], ◌∷◌, map, length, All, arith,
}
use cluster_api_provider_vmw.Api.Machine.{VdMachine, VdNetworkAdapter}
use cluster_api_provider_vmw.Remote.{NicDevice, get_all_nic_devices, success, Env}
use cluster_api_provider_vmw.Program.{
  State, done, pure, or_wrap, ◌>>=◌, no_requeue, requeue, millisecond,
}
use cluster_api_provider_vmw.Program.Returns.{bind-done}
use cluster_api_provider_vmw.Program.Steps.{
  run_pure, run_get, run_modify, run_send, run_some, run_then, run_else, run_success,
}
use cluster_api_provider_vmw.Machine.Fields.{set_adapters}
use cluster_api_provider_vmw.Machine.Adapters.{
  spec_adapters, elements, adapter_of, contains_all, create_missing, refresh_adapters,
  reconcile_network_adapters,
}
use cluster_api_provider_vmw.Machine.Adapters.Present.{
  map-IsTyped, IsTyped, covers, contains_lem, contains_all_lem,
}

module _ (E : Env) (vm_id : String) where
  create_missing_none :
      (status : List VdNetworkAdapter) (number : ℕ) (adapters : List VdNetworkAdapter)
      (s : State VdMachine)
      → All IsTyped status
      → All IsTyped adapters
      → covers status adapters ≡ true
      → create_missing E vm_id status number adapters s ≡ (done tt, s)
  unfolding create_missing ◌>>=◌
  create_missing_none status number [] s ts t e = refl
  create_missing_none status number (a ∷ adapters) s ts t e =
      let head = contains_lem status a s ts t.0 in
      let rest = create_missing_none status (suc number) adapters s ts t.1 (ground arith) in
      ground arith

  module _ (nics : List NicDevice) (adapters : List VdNetworkAdapter) (typed : All IsTyped adapters)
      (listed : covers (map adapter_of nics) adapters ≡ true) where
    refresh_listed :
        (s : State VdMachine)
        → spec_adapters s.object ≡ some adapters
        → E.answer s.calls (get_all_nic_devices vm_id) ≡ success nics
        → refresh_adapters E vm_id s ≡ (
          done (requeue millisecond),
          record {
            object = set_adapters (some (map adapter_of nics)) s.object;
            calls = get_all_nic_devices vm_id ∷ s.calls;
          },
        )
    unfolding refresh_adapters
    refresh_listed s wanted told =
        let status = map adapter_of nics in
        let t : State VdMachine = record {
          object = s.object;
          calls = get_all_nic_devices vm_id ∷ s.calls;
        } in
        let u : State VdMachine = record {
          object = set_adapters (some status) s.object;
          calls = t.calls;
        } in
        run_send s E (get_all_nic_devices vm_id) (success nics) _ told
        ∙ bind-done (or_wrap "failed to get VM network adapters: " (success nics)) _ t t nics
            (run_success _ nics t)
        ∙ run_modify t (set_adapters (some status)) _
        ∙ run_get u _
        ∙ run_some u (spec_adapters u.object) adapters (pure no_requeue) _ wanted
        ∙ bind-done (create_missing E vm_id status (length nics) adapters) _ u u tt
            (create_missing_none status (length nics) adapters u (map-IsTyped nics) typed listed)
        ∙ run_pure (requeue millisecond) u

-- If the service lists an adapter for each one of the spec, all adapters have a type and a network,
-- and the status lacks one of the spec, then the adapter step comes to rest in two runs: the first
-- one only asks for the devices, notes them and asks for another run, and the next one returns
-- without asking for another, without a call and without a change.
pub reconcile_network_adapters-rests :
    (E : Env) (vm_id : String) (nics : List NicDevice) (adapters : List VdNetworkAdapter)
    (s : State VdMachine)
    → All IsTyped adapters
    → All IsTyped (elements s.object.status.network_adapters)
    → spec_adapters s.object ≡ some adapters
    → covers (elements s.object.status.network_adapters) adapters ≡ false
    → E.answer s.calls (get_all_nic_devices vm_id) ≡ success nics
    → covers (map adapter_of nics) adapters ≡ true
    → (let t : State VdMachine = record {
      object = set_adapters (some (map adapter_of nics)) s.object;
      calls = get_all_nic_devices vm_id ∷ s.calls;
    } in
        (reconcile_network_adapters E vm_id s ≡ (done (requeue millisecond), t))
        × (reconcile_network_adapters E vm_id t ≡ (done no_requeue, t)))
unfolding reconcile_network_adapters
reconcile_network_adapters-rests E vm_id nics adapters s typed known wanted lacks told listed =
    let status = map adapter_of nics in
    let t : State VdMachine = record {
      object = set_adapters (some status) s.object;
      calls = get_all_nic_devices vm_id ∷ s.calls;
    } in
    (
      run_get s _
          ∙ run_some s (spec_adapters s.object) adapters _ _ wanted
          ∙ bind-done (contains_all (elements s.object.status.network_adapters) adapters) _ s s _
              (contains_all_lem (elements s.object.status.network_adapters) adapters s known typed)
          ∙ run_else s _ (pure no_requeue) (refresh_adapters E vm_id) lacks
          ∙ refresh_listed E vm_id nics adapters typed listed s wanted told,
      run_get t _
          ∙ run_some t (spec_adapters t.object) adapters _ _ wanted
          ∙ bind-done (contains_all status adapters) _ t t _
              (contains_all_lem status adapters t (map-IsTyped nics) typed)
          ∙ run_then t _ (pure no_requeue) (refresh_adapters E vm_id) listed
          ∙ run_pure no_requeue t,
    )
