-- ===== src/Machine/Life/Stale.antt =====
-- What is left of the status when the service no longer knows the virtual machine.
use cluster_api_provider_vmw.Base.{◌≡◌, ap, ◌∙◌, String, true, false, none, some, List, arith}
use cluster_api_provider_vmw.Api.Machine.{VdMachine, Int32}
use cluster_api_provider_vmw.Remote.{
  Error, Call, OwnerMachine, OwnerCluster, Env, create_vm, get_power_state, success, failure,
}
use cluster_api_provider_vmw.Program.{State, done, ◌>>=◌, no_requeue}
use cluster_api_provider_vmw.Client.Starts.{IsConfigured, client_calls, new_vd_client_configured}
use cluster_api_provider_vmw.Machine.Create.{reconcile_create_vm}
use cluster_api_provider_vmw.Machine.Bootstrap.{reconcile_bootstrap_data}
use cluster_api_provider_vmw.Machine.Normal.{may_start, create_or_update, reconcile_normal, hold}
use cluster_api_provider_vmw.Machine.Reconcile.{unlink, dispatch, after_observe, handle}

module _ (E : Env) (cluster : OwnerCluster) (owner : OwnerMachine)
    (url username password : String) where
  gone_lem :
      (vm_id : String) (e : Error) (s : State VdMachine)
      → IsConfigured E url username password
      → s.object.spec.vm_id ≡ some vm_id
      → E.answer (client_calls s.calls) (get_power_state vm_id) ≡ failure (some 404) e
      → ((handle E cluster owner s).0 ≡ done no_requeue)
        × ((handle E cluster owner s).1.object ≡ unlink s.object)
  unfolding handle after_observe ◌>>=◌
  gone_lem vm_id e s configured known gone =
      let c = new_vd_client_configured E url username password s configured in ground arith

  remade_lem :
      (vm_id : String) (cpu memory : Int32) (s : State VdMachine)
      → IsConfigured E url username password
      → ((calls : List Call) (name template : String)
          → E.answer calls (create_vm name template)
            ≡ success (record { id = vm_id; processors = some cpu; memory = some memory }))
      → may_start cluster owner ≡ true
      → s.object.meta.deleted ≡ false
      → s.object.spec.vm_id ≡ none
      → ((handle E cluster owner s).0 ≡ done no_requeue)
        × ((handle E cluster owner s).1.object.spec.vm_id ≡ some vm_id)
        × ((handle E cluster owner s).1.object.status.ready ≡ s.object.status.ready)
        × ((handle E cluster owner s).1.object.status.addresses ≡ s.object.status.addresses)
        × ((handle E cluster owner s).1.object.status.initialization
            ≡ s.object.status.initialization)
  unfolding handle dispatch reconcile_normal create_or_update reconcile_create_vm ◌>>=◌
  remade_lem vm_id cpu memory s configured creates ready alive fresh =
      let c = new_vd_client_configured E url username password s configured in
      let t : State VdMachine = record { object = hold E s.object; calls = client_calls s.calls } in
      let d = new_vd_client_configured E url username password t configured in
      let a =
        creates (client_calls (client_calls s.calls)) s.object.meta.name
          s.object.spec.template_id in
      ground arith

  quiet_lem :
      (vm_id : String) (s : State VdMachine)
      → s.object.status.initialization.bootstrap_data_provided ≡ true
      → reconcile_bootstrap_data E vm_id owner s ≡ (done tt, s)
  unfolding reconcile_bootstrap_data ◌>>=◌
  quiet_lem vm_id s e = ground arith

  -- When the service answers the question for the power state with 404 for a machine that is not
  -- being deleted and has been given its bootstrap data, and a new virtual machine can then be made,
  -- two runs of the handler replace the virtual machine and leave the marks of the old one: the machine
  -- is as ready as before, with the addresses of the old one, and it counts as given its
  -- bootstrap data, so the bootstrap step for the new virtual machine makes no call.
  pub handle-stale :
      (old new : String) (e : Error) (cpu memory : Int32) (s : State VdMachine)
      → IsConfigured E url username password
      → ((calls : List Call) (name template : String)
          → E.answer calls (create_vm name template)
            ≡ success (record { id = new; processors = some cpu; memory = some memory }))
      → may_start cluster owner ≡ true
      → s.object.meta.deleted ≡ false
      → s.object.spec.vm_id ≡ some old
      → s.object.status.initialization.bootstrap_data_provided ≡ true
      → E.answer (client_calls s.calls) (get_power_state old) ≡ failure (some 404) e
      → (let s2 : State VdMachine = (handle E cluster owner (handle E cluster owner s).1).1 in
          (s2.object.spec.vm_id ≡ some new)
          × (s2.object.status.ready ≡ s.object.status.ready)
          × (s2.object.status.addresses ≡ s.object.status.addresses)
          × (reconcile_bootstrap_data E new owner s2 ≡ (done tt, s2)))
  handle-stale old new e cpu memory s configured creates ready alive known provided gone =
      let s1 : State VdMachine = (handle E cluster owner s).1 in
      let o = (gone_lem old e s configured known gone).1 in
      let r =
        remade_lem new cpu memory s1 configured creates ready (ap (λ m. m.meta.deleted) o ∙ alive)
          (ap (λ m. m.spec.vm_id) o) in
      (
        r.1,
        r.2 ∙ ap (λ m. m.status.ready) o,
        r.3 ∙ ap (λ m. m.status.addresses) o,
        quiet_lem new (handle E cluster owner s1).1 (
            ap (λ i. i.bootstrap_data_provided) r.4
            ∙ (ap (λ m. m.status.initialization.bootstrap_data_provided) o ∙ provided)),
      )
