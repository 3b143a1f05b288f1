-- ===== src/Examples/Vnc.antt =====
-- VNC on a service that remembers what it is told.
use cluster_api_provider_vmw.Base.{◌≡◌, refl, ap, String, Option, true, false, none, some, List}
use cluster_api_provider_vmw.Text.{itoa, parse_bool}
use cluster_api_provider_vmw.Api.Machine.{VdMachine, Vnc}
use cluster_api_provider_vmw.Remote.{Call, Reply, Env, IsLawful, Http, success, get_vm_params}
use cluster_api_provider_vmw.Program.{State, done, no_requeue, for_each, ◌>>=◌}
use cluster_api_provider_vmw.Machine.Vnc.{
  reconcile_vnc, compare_vnc, needs_vnc, configure_vnc, choose_port, choose_password, generate_port,
  send_vnc, update_vnc_status, read_param, ask,
}
use cluster_api_provider_vmw.Machine.Vnc.Remembered.{last_set, Remembers}
use cluster_api_provider_vmw.Machine.Vnc.Again.{reconcile_vnc-settles}
use cluster_api_provider_vmw.Examples.World.{
  answering-IsLawful, start, world, answer_with, linked_machine, linked_spec, fresh_status,
}

-- The value that was set, or an empty text.
abbrev told : Option String → Http (Option String)
told none = success (some "")
told (some value) = success (some value)

abbrev answer_noted : List Call → (c : Call) → Reply c
answer_noted h (get_vm_params vm_id name) = told (last_set vm_id name h)
answer_noted h c = answer_with linked_machine h c

abbrev noting : Env
noting = record (world linked_machine) { answer = answer_noted }

noting-Remembers : Remembers noting "A"
noting-Remembers calls name value e = ap told e

noting-IsLawful : IsLawful noting
noting-IsLawful = answering-IsLawful linked_machine answer_noted (λ h n. refl)

abbrev wanted_vnc : Vnc
wanted_vnc = record {
  enabled = some true;
  port = none;
  password = some "secret";
  generate_port = some true;
  generate_password = none;
}

-- VNC is off, with another password.
abbrev actual_vnc : Vnc
actual_vnc = record {
  enabled = some false;
  port = none;
  password = some "old";
  generate_port = none;
  generate_password = none;
}

abbrev changing : State VdMachine
changing = start (record linked_machine {
  spec = record linked_spec { vnc = some wanted_vnc };
  status = record fresh_status { vnc = some actual_vnc };
})

reconcile_vnc-settles_example :
    (let s' : State VdMachine = (reconcile_vnc noting "A" changing).1 in
      reconcile_vnc noting "A" s' ≡ (done no_requeue, s'))
unfolding reconcile_vnc compare_vnc needs_vnc configure_vnc choose_port choose_password
    generate_port send_vnc update_vnc_status read_param ask for_each parse_bool itoa ◌>>=◌
reconcile_vnc-settles_example =
    reconcile_vnc-settles noting "A" changing noting-IsLawful noting-Remembers (refl, refl) refl
