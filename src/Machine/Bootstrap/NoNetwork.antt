-- ===== src/Machine/Bootstrap/NoNetwork.antt =====
-- What the bootstrap step does for a machine without a network.
use cluster_api_provider_vmw.Base.{String, ◌≡◌, some, none, List, lookup, arith, false}
use cluster_api_provider_vmw.Api.Machine.{VdMachine}
use cluster_api_provider_vmw.Remote.{OwnerMachine, get_secret, found, Env}
use cluster_api_provider_vmw.Program.{State, panic, ◌>>=◌}
use cluster_api_provider_vmw.Machine.Bootstrap.{
  reconcile_bootstrap_data, provide_bootstrap_data, send_bootstrap_data, get_secret_data,
  build_metadata,
}

module _ (E : Env) (vm_id : String) (owner : OwnerMachine) where
  -- The bootstrap step panics for a machine that has no network in its spec, has its provider id,
  -- and whose secret is there with a value, if the data has not been provided before.
  pub bootstrap-panics :
      (secret value provider_id : String) (entries : List (String × String)) (s : State VdMachine)
      → s.object.status.initialization.bootstrap_data_provided ≡ false
      → owner.data_secret_name ≡ some secret
      → E.answer s.calls
          (get_secret (record { namespace = s.object.meta.namespace; name = secret }))
        ≡ found entries
      → lookup "value" entries ≡ some value
      → s.object.spec.provider_id ≡ some provider_id
      → s.object.spec.network ≡ none
      → (reconcile_bootstrap_data E vm_id owner s).0 ≡ panic
  unfolding reconcile_bootstrap_data provide_bootstrap_data send_bootstrap_data get_secret_data
      build_metadata ◌>>=◌
  bootstrap-panics secret value provider_id entries s a b c d e f = ground arith
