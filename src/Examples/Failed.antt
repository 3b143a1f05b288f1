-- ===== src/Examples/Failed.antt =====
-- A service that does not answer, and one that has lost a virtual machine.
use cluster_api_provider_vmw.Base.{◌≡◌, refl, false, none, some, List, [], ◌∷◌}
use cluster_api_provider_vmw.Api.Machine.{VdMachine, machine_finalizer}
use cluster_api_provider_vmw.Remote.{
  Call, Reply, Env, IsLawful, has, success, failure, get_power_state, change_power_state, off,
  patch_machine,
}
use cluster_api_provider_vmw.Program.{fail, panic, deferred}
use cluster_api_provider_vmw.Client.Starts.{IsConfigured, client_calls}
use cluster_api_provider_vmw.Machine.Reconcile.{patch_now, handle}
use cluster_api_provider_vmw.Machine.Life.Observed.{observed}
use cluster_api_provider_vmw.Machine.Life.Failed.{let_go, handle-unanswered, handle-gone}
use cluster_api_provider_vmw.Examples.World.{
  set-IsConfigured, answering-IsLawful, start, world, answer_with, linked_machine, leaving_machine,
  owner_machine, owner_cluster,
}

abbrev answer_nothing : List Call → (c : Call) → Reply c
answer_nothing h (get_power_state _) = failure none "connection refused"
answer_nothing h c = answer_with linked_machine h c

abbrev down : Env
down = record (world linked_machine) { answer = answer_nothing }

down-IsConfigured : IsConfigured down "set" "set" "set"
down-IsConfigured = set-IsConfigured down (λ calls name. refl)

handle-unanswered_example :
    deferred (patch_now down) (handle down owner_cluster owner_machine) (start linked_machine) ≡ (
      panic,
      record {
        object = linked_machine;
        calls = patch_machine linked_machine ∷ get_power_state "A" ∷ client_calls [];
      },
    )
handle-unanswered_example =
    handle-unanswered down "A" owner_cluster owner_machine "set" "set" "set" none
      "connection refused" (start linked_machine) down-IsConfigured refl refl refl

-- The virtual machine goes away between the two calls.
abbrev answer_gone : List Call → (c : Call) → Reply c
answer_gone h (get_power_state _) = success "poweredOn"
answer_gone h (change_power_state _ _) = failure (some 404) "not found"
answer_gone h c = answer_with leaving_machine h c

abbrev gone : Env
gone = record (world leaving_machine) { answer = answer_gone }

gone-IsConfigured : IsConfigured gone "set" "set" "set"
gone-IsConfigured = set-IsConfigured gone (λ calls name. refl)

gone-IsLawful : IsLawful gone
gone-IsLawful = answering-IsLawful leaving_machine answer_gone (λ h n. refl)

handle-gone_example :
    (let m : VdMachine = let_go gone "poweredOn" leaving_machine in
      (deferred (patch_now gone) (handle gone owner_cluster owner_machine) (start leaving_machine)
        ≡ (
          fail "not found",
          record {
            object = m;
            calls =
                patch_machine m
                ∷ change_power_state "A" off
                ∷ client_calls (observed "A" "poweredOn" (start leaving_machine)).calls;
          },
        ))
      × (has machine_finalizer m.meta.finalizers ≡ false))
handle-gone_example =
    handle-gone gone "A" owner_cluster owner_machine "set" "set" "set" "poweredOn" "not found"
      (start leaving_machine) gone-IsLawful gone-IsConfigured refl refl refl refl refl
      (λ calls m. refl)
