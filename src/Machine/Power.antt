-- ===== src/Machine/Power.antt =====
-- `reconcilePowerState`
use cluster_api_provider_vmw.Base.{String, none, some, ◌<>◌, ◌==◌, nat_eq, if◌then◌else◌}
use cluster_api_provider_vmw.Api.Machine.{VdMachine}
use cluster_api_provider_vmw.Remote.{change_power_state, on, Http, success, failure, Env}
use cluster_api_provider_vmw.Program.{M, pure, raise, crash, deref, gets, modify, send, ◌>>=◌}
use cluster_api_provider_vmw.Machine.Fields.{set_provider_id, set_state}

abbrev pub powered_off : String
powered_off = "poweredOff"

-- A failed call without a response panics at `response.StatusCode`.
after_power_on : Http String → M VdMachine (Unit {0})
after_power_on (success state) = modify (set_state (some state))
after_power_on (failure none e) = crash
after_power_on (failure (some code) e) =
    if nat_eq code 404
    then modify (set_provider_id none)
    else raise ("failed to power on VM: " <> e)

power_on : Env → String → M VdMachine (Unit {0})
unfolding after_power_on
power_on E vm_id = do reply ← send E (change_power_state vm_id on); after_power_on reply

unfoldable pub reconcile_power_state : Env → String → M VdMachine (Unit {0})
unfolding power_on
reconcile_power_state E vm_id = do
  current ← gets (λ m. m.status.state)
  state ← deref current
  if state == powered_off then power_on E vm_id else pure tt
