-- ===== src/Machine/Life/Steady.antt =====
-- A machine for which nothing is left to do, and what a run of the handler does for it.
pub mod Run
use cluster_api_provider_vmw.Base.{
  String, ◌==◌, ◌≡◌, refl, sym, ap, ◌∙◌, ◌⊎◌, inl, inr, Bool, true, false, Option, none, some,
  is_some, List, [], ◌∷◌, All, ltb, length, ◌*◌, arith, if◌then◌else◌,
}
use cluster_api_provider_vmw.Api.Machine.{VdMachine, VdNetworkAdapter, VdNetworkEthernet}
use cluster_api_provider_vmw.Remote.{
  OwnerMachine, OwnerCluster, Env, get_power_state, change_power_state, on, patch_machine, success,
}
use cluster_api_provider_vmw.Program.{
  State, M, Result, done, pure, ◌>>=◌, ◌>>◌, no_requeue, requeue, second, ◌then_unless_requeue◌,
}
use cluster_api_provider_vmw.Program.Returns.{bind-done}
use cluster_api_provider_vmw.Program.Steps.{
  run_pure, run_get, run_modify, run_send, run_some, run_then, run_else, run_quiet,
}
use cluster_api_provider_vmw.Client.{new_vd_client}
use cluster_api_provider_vmw.Client.Starts.{IsConfigured, client_calls, new_vd_client_configured}
use cluster_api_provider_vmw.Machine.Fields.{set_state}
use cluster_api_provider_vmw.Machine.Hardware.{is_configured, reconcile_hardware}
use cluster_api_provider_vmw.Machine.Adapters.{
  spec_adapters, elements, contains_all, refresh_adapters, reconcile_network_adapters,
}
use cluster_api_provider_vmw.Machine.Ipam.{
  await_addresses, spec_ethernets, reconcile_network_addresses,
}
use cluster_api_provider_vmw.Machine.Folders.{shared_folders_equal, reconcile_shared_folders}
use cluster_api_provider_vmw.Machine.Vnc.{reconcile_vnc, compare_vnc}
use cluster_api_provider_vmw.Machine.Vnc.Settles.{Settled, Settled-quiet}
use cluster_api_provider_vmw.Machine.Vnc.Again.{IsQuiet}
use cluster_api_provider_vmw.Machine.Bootstrap.{reconcile_bootstrap_data}
use cluster_api_provider_vmw.Machine.Power.{powered_off, reconcile_power_state}
use cluster_api_provider_vmw.Machine.Addresses.{reconcile_addresses}
use cluster_api_provider_vmw.Machine.Normal.{
  start_machine, update_machine, create_or_update, reconcile_normal, may_start, hold,
}
use cluster_api_provider_vmw.Machine.Reconcile.{patch, patch_now, dispatch, after_observe, handle}
use cluster_api_provider_vmw.Machine.Life.Ready.{HasNoPool}

-- The adapters are known, and those of the spec are among them.
abbrev pub HasAdapters : VdMachine → Type 0
HasAdapters m =
    ((spec_adapters m ≡ none) × (is_some m.status.network_adapters ≡ true))
    ⊎ ((adapters : List VdNetworkAdapter) × (spec_adapters m ≡ some adapters)
        × ((s : State VdMachine)
            → contains_all (elements m.status.network_adapters) adapters s ≡ (done true, s)))

-- VNC is known, and not asked for or as the spec wants it.
abbrev pub HasVnc : VdMachine → Type 0
HasVnc m = ((m.spec.vnc ≡ none) × (is_some m.status.vnc ≡ true)) ⊎ Settled m

-- The status has all that the spec asks for, and the machine has addresses and its bootstrap data.
pub record IsSteady (vm_id : String) (m : VdMachine) : Type 0 where
  pub alive : m.meta.deleted ≡ false
  pub linked : m.spec.vm_id ≡ some vm_id
  pub cpu : is_configured m.spec.cpu m.status.hardware.cpu ≡ true
  pub memory : is_configured m.spec.memory m.status.hardware.memory ≡ true
  pub adapters : HasAdapters m
  pub no_pools : All HasNoPool (spec_ethernets m)
  pub folders : shared_folders_equal m.spec.shared_folders m.status.shared_folders ≡ true
  pub vnc : HasVnc m
  pub provided : m.status.initialization.bootstrap_data_provided ≡ true
  pub addresses : ltb 0 (length m.status.addresses) ≡ true

module _ (E : Env) (vm_id : String) where
  hardware_quiet :
      (s : State VdMachine) → IsSteady vm_id s.object → reconcile_hardware E vm_id s ≡ (done tt, s)
  unfolding reconcile_hardware ◌>>=◌
  hardware_quiet s h = let a = h.cpu in let b = h.memory in ground arith

  -- For adapters that are all there, whatever the test is made of.
  known-IsQuiet :
      (s : State VdMachine) (wanted : Option (List VdNetworkAdapter))
      (adapters : List VdNetworkAdapter)
      → wanted ≡ some adapters
      → contains_all (elements s.object.status.network_adapters) adapters s ≡ (done true, s)
      → IsQuiet
          (elim wanted [
            | none ↦
                if is_some s.object.status.network_adapters
                then pure no_requeue
                else refresh_adapters E vm_id
            | some listed ↦
                contains_all (elements s.object.status.network_adapters) listed >>= λ all.
                if all then pure no_requeue else refresh_adapters E vm_id
          ])
          s
  unfolding ◌>>=◌
  known-IsQuiet s none adapters e h = ground arith
  known-IsQuiet s (some listed) adapters e h = ground arith

  adapters-IsQuiet :
      (s : State VdMachine) → HasAdapters s.object → IsQuiet (reconcile_network_adapters E vm_id) s
  unfolding reconcile_network_adapters ◌>>=◌
  adapters-IsQuiet s (inl (wanted, known)) = ground arith
  adapters-IsQuiet s (inr (adapters, wanted, all)) =
      known-IsQuiet s (spec_adapters s.object) adapters wanted (all s)

  await-IsQuiet :
      (m : VdMachine) (ethernets : List VdNetworkEthernet) (s : State VdMachine)
      → All HasNoPool ethernets
      → IsQuiet (await_addresses E m ethernets) s
  unfolding await_addresses ◌>>=◌
  await-IsQuiet m [] s h = refl
  await-IsQuiet m (e ∷ ethernets) s h =
      let rest = await-IsQuiet m ethernets s h.1 in let unpooled = h.0 in ground arith

  pools-IsQuiet :
      (s : State VdMachine) → IsSteady vm_id s.object → IsQuiet (reconcile_network_addresses E) s
  unfolding reconcile_network_addresses ◌>>=◌
  pools-IsQuiet s h = await-IsQuiet s.object (spec_ethernets s.object) s h.no_pools

  folders-IsQuiet :
      (s : State VdMachine) → IsSteady vm_id s.object → IsQuiet (reconcile_shared_folders E vm_id) s
  unfolding reconcile_shared_folders ◌>>=◌
  folders-IsQuiet s h = let e = h.folders in ground arith

  vnc-IsQuiet : (s : State VdMachine) → HasVnc s.object → IsQuiet (reconcile_vnc E vm_id) s
  unfolding reconcile_vnc compare_vnc ◌>>=◌
  vnc-IsQuiet s (inl (unwanted, known)) = ground arith
  vnc-IsQuiet s (inr settled) = Settled-quiet E vm_id s settled

  bootstrap_quiet :
      (owner : OwnerMachine) (s : State VdMachine)
      → IsSteady vm_id s.object
      → reconcile_bootstrap_data E vm_id owner s ≡ (done tt, s)
  unfolding reconcile_bootstrap_data ◌>>=◌
  bootstrap_quiet owner s h = let e = h.provided in ground arith

  addresses-IsQuiet :
      (s : State VdMachine) → IsSteady vm_id s.object → IsQuiet (reconcile_addresses E vm_id) s
  unfolding reconcile_addresses ◌>>=◌
  addresses-IsQuiet s h = let e = h.addresses in ground arith

  -- The state of the power is known.
  pub power_quiet :
      (state : String) (s : State VdMachine)
      → s.object.status.state ≡ some state
      → (state == powered_off) ≡ false
      → reconcile_power_state E vm_id s ≡ (done tt, s)
  unfolding reconcile_power_state ◌>>=◌
  power_quiet state s known up = ground arith

  pub power_wakes :
      (state state' : String) (s : State VdMachine)
      → s.object.status.state ≡ some state
      → (state == powered_off) ≡ true
      → E.answer s.calls (change_power_state vm_id on) ≡ success state'
      → reconcile_power_state E vm_id s ≡ (
        done tt,
        record {
          object = set_state (some state') s.object;
          calls = change_power_state vm_id on ∷ s.calls;
        },
      )
  unfolding reconcile_power_state ◌>>=◌
  power_wakes state state' s known off told = ground arith

  -- Up to the step for the power.
  pub update_quiet :
      (owner : OwnerMachine) (s : State VdMachine)
      → IsSteady vm_id s.object
      → update_machine E vm_id owner s ≡ start_machine E vm_id owner s
  unfolding update_machine
  update_quiet owner s h =
      bind-done (reconcile_hardware E vm_id) _ s s tt (hardware_quiet s h)
      ∙ run_quiet (reconcile_network_adapters E vm_id) _ s (adapters-IsQuiet s h.adapters)
      ∙ run_quiet (reconcile_network_addresses E) _ s (pools-IsQuiet s h)
      ∙ run_quiet (reconcile_shared_folders E vm_id) _ s (folders-IsQuiet s h)
      ∙ run_quiet (reconcile_vnc E vm_id) _ s (vnc-IsQuiet s h.vnc)

  pub start_quiet :
      (owner : OwnerMachine) (s t : State VdMachine)
      → IsSteady vm_id s.object
      → IsSteady vm_id t.object
      → reconcile_power_state E vm_id s ≡ (done tt, t)
      → start_machine E vm_id owner s ≡ (done (requeue (10 * second)), t)
  unfolding start_machine
  start_quiet owner s t h k e =
      bind-done (reconcile_bootstrap_data E vm_id owner) _ s s tt (bootstrap_quiet owner s h)
      ∙ bind-done (reconcile_power_state E vm_id) _ s t tt e
      ∙ run_quiet (reconcile_addresses E vm_id) (pure (requeue (10 * second))) t
          (addresses-IsQuiet t k)
      ∙ run_pure (requeue (10 * second)) t
