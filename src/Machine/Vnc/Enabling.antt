-- ===== src/Machine/Vnc/Enabling.antt =====
-- What `reconcileVnc` does where the machine has no settings for VNC yet.
use cluster_api_provider_vmw.Base.{
  ℕ, ◌≤◌, ◌<◌, ◌+◌, ◌<>◌, String, ◌≡◌, refl, ap, ◌∙◌, some, none, List, [], ◌∷◌, arith, Bool,
}
use cluster_api_provider_vmw.Text.{itoa}
use cluster_api_provider_vmw.Api.Machine.{VdMachine, Vnc}
use cluster_api_provider_vmw.Remote.{Call, get_vm_params, rand_intn, success, Env, IsLawful}
use cluster_api_provider_vmw.Program.{State, done, panic, ◌>>=◌, requeue, millisecond}
use cluster_api_provider_vmw.Machine.Fields.{set_vnc_status}
use cluster_api_provider_vmw.Machine.Vnc.{
  key_prefixes, reconcile_vnc, compare_vnc, needs_vnc, update_vnc_status, read_param, ask,
  generate_port,
}

-- The service has no value for any parameter.
abbrev pub IsBlank : Env → String → Type 0
IsBlank E vm_id =
    (calls : List Call) (name : String)
    → E.answer calls (get_vm_params vm_id name) ≡ success (some "")

module _ (E : Env) (vm_id : String) where
  read_param_blank :
      IsBlank E vm_id
      → (key : String) (prefixes : List String) (s : State VdMachine)
      → (read_param E vm_id key prefixes "" s).0 ≡ done ""
        × ((read_param E vm_id key prefixes "" s).1.object ≡ s.object)
  unfolding read_param ask ◌>>=◌
  read_param_blank blank key [] s = (refl, refl)
  read_param_blank blank key (prefix ∷ prefixes) s =
      rw (blank s.calls (prefix <> ".vnc." <> key)) (read_param_blank blank key prefixes _)

  -- The status that the service's answers amount to.
  abbrev no_settings : Vnc
  no_settings = record {
    enabled = none;
    port = none;
    password = none;
    generate_port = none;
    generate_password = none;
  }

  update_vnc_status_blank :
      IsBlank E vm_id
      → (s : State VdMachine)
      → (update_vnc_status E vm_id s).0 ≡ done tt
        × ((update_vnc_status E vm_id s).1.object ≡ set_vnc_status (some no_settings) s.object)
  unfolding update_vnc_status ◌>>=◌
  update_vnc_status_blank blank s =
      let a = read_param_blank blank "enabled" key_prefixes s in
      let s1 = (read_param E vm_id "enabled" key_prefixes "" s).1 in
      let b = read_param_blank blank "port" key_prefixes s1 in
      let s2 = (read_param E vm_id "port" key_prefixes "" s1).1 in
      let c = read_param_blank blank "password" key_prefixes s2 in ground arith

  second_run-panics :
      (spec : Vnc) (wanted : Bool) (s : State VdMachine)
      → s.object.status.vnc ≡ some no_settings
      → s.object.spec.vnc ≡ some spec
      → spec.enabled ≡ some wanted
      → (reconcile_vnc E vm_id s).0 ≡ panic
  unfolding reconcile_vnc compare_vnc needs_vnc ◌>>=◌
  second_run-panics spec wanted s status e on = ground arith

  first_run :
      IsBlank E vm_id
      → (s : State VdMachine) → s.object.status.vnc ≡ none
      → (reconcile_vnc E vm_id s).0 ≡ done (requeue millisecond)
        × ((reconcile_vnc E vm_id s).1.object ≡ set_vnc_status (some no_settings) s.object)
  unfolding reconcile_vnc ◌>>=◌
  first_run blank s fresh = let u = update_vnc_status_blank blank s in ground arith

  -- For a machine whose VNC status is unknown, whose spec says whether VNC is enabled, and for which
  -- the service answers every parameter with an empty text, the first run of the VNC step asks to be
  -- run again, and that next run panics.
  pub reconcile_vnc-panics :
      (spec : Vnc) (wanted : Bool) (s : State VdMachine)
      → IsBlank E vm_id
      → s.object.status.vnc ≡ none
      → s.object.spec.vnc ≡ some spec
      → spec.enabled ≡ some wanted
      → (let s' : State VdMachine = (reconcile_vnc E vm_id s).1 in
          (reconcile_vnc E vm_id s).0 ≡ done (requeue millisecond)
          × ((reconcile_vnc E vm_id s').0 ≡ panic))
  reconcile_vnc-panics spec wanted s blank fresh e on =
      let f = first_run blank s fresh in
      (
        f.0,
        second_run-panics spec wanted _ (ap (λ m. m.status.vnc) f.1) (ap (λ m. m.spec.vnc) f.1 ∙ e)
            on,
      )

-- The generated port is the decimal text of a number from 5900 to 5999, if the random number
-- below 100 is below 100.
pub generate_port-bounds :
    (E : Env)
    → IsLawful E
    → (s : State VdMachine)
    → (n : ℕ) × ((generate_port E s).0 ≡ done (itoa n)) × (5900 ≤ n) × (n < 6000)
unfolding generate_port ◌>>=◌
generate_port-bounds E lawful s =
    let b = lawful.rand_intn-lt s.calls 100 (omega arith) in
    (E.answer s.calls (rand_intn 100) + 5900, refl, omega arith, omega arith)
