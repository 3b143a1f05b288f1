-- ===== src/Machine/Bootstrap/Sent.antt =====
-- What the bootstrap step has sent when it returns.
use mathlib.Core.List.{Perm}
use cluster_api_provider_vmw.Base.{
  lookup, String, ◌≡◌, refl, ap, ◌∙◌, some, List, [], ◌∷◌, arith, true, false,
}
use cluster_api_provider_vmw.Text.{replace_all}
use cluster_api_provider_vmw.Text.Base64.{encode_base64}
use cluster_api_provider_vmw.Api.Machine.{VdMachine}
use cluster_api_provider_vmw.Remote.{
  Fetched, found, missing, broken, get_secret, Call, OwnerMachine, config_vm_params, Env, IsLawful,
}
use cluster_api_provider_vmw.Program.{State, done, ◌>>=◌, for_each, modify}
use cluster_api_provider_vmw.Program.Returns.{
  Ends-bind_value, bind-Returned, Ends, Ends-then, Ends-else, Ends-deref, Ends-get, Ends-history,
}
use cluster_api_provider_vmw.Machine.Metadata.{Metadata, render_metadata}
use cluster_api_provider_vmw.Machine.Bootstrap.{
  secret_value, get_secret_data, build_metadata, reconcile_bootstrap_data, provide_bootstrap_data,
  send_bootstrap_data, send_guestinfo, mark_provided,
}

-- The calls that send the parameters, the latest first, before the earlier ones.
abbrev pub sent : String → List (String × String) → List Call → List Call
sent vm_id [] calls = calls
sent vm_id ((name, value) ∷ params) calls =
    sent vm_id params (config_vm_params vm_id name value ∷ calls)

-- The answer is a secret with the value.
abbrev pub HoldsSecret : Fetched (List (String × String)) → String → Type 0
HoldsSecret (found entries) value = lookup "value" entries ≡ some value
HoldsSecret _ value = ⊥

secret_value_done :
    (reply : Fetched (List (String × String))) (value : String) (s : State VdMachine)
    → (secret_value reply s).0 ≡ done value
    → HoldsSecret reply value
unfolding secret_value ◌>>=◌
secret_value_done (found entries) value s h = ground arith
secret_value_done (missing e) value s h = ground arith
secret_value_done (broken e) value s h = ground arith

module _ (E : Env) (vm_id : String) where
  send_guestinfo_done :
      (p : String × String) (s : State VdMachine)
      → (send_guestinfo E vm_id p s).0 ≡ done tt
      → (send_guestinfo E vm_id p s).1.calls ≡ config_vm_params vm_id p.0 p.1 ∷ s.calls
  unfolding send_guestinfo ◌>>=◌
  send_guestinfo_done (name, value) s h = ground arith

  for_each_done :
      (params : List (String × String)) (s : State VdMachine)
      → (for_each params (send_guestinfo E vm_id) s).0 ≡ done tt
      → (for_each params (send_guestinfo E vm_id) s).1.calls ≡ sent vm_id params s.calls
  unfolding for_each ◌>>=◌
  for_each_done [] s h = ground arith
  for_each_done (p ∷ params) s h =
      let r =
        bind-Returned (send_guestinfo E vm_id p) (λ _. for_each params (send_guestinfo E vm_id)) s
          tt h in
      ap (λ q. q.1.calls) r.same
      ∙ (for_each_done params (send_guestinfo E vm_id p s).1 r.rest
          ∙ ap (sent vm_id params) (send_guestinfo_done p s r.first))

  get_secret_data_done :
      (namespace name secret : String) (s : State VdMachine)
      → (get_secret_data E namespace name s).0 ≡ done secret
      → HoldsSecret
          (E.answer s.calls (get_secret (record { namespace = namespace; name = name })))
          secret
  unfolding get_secret_data ◌>>=◌
  get_secret_data_done namespace name secret s h = secret_value_done _ secret _ h

  get_secret_data-object :
      (namespace name : String) (s : State VdMachine)
      → (get_secret_data E namespace name s).1.object ≡ s.object
  unfolding get_secret_data ◌>>=◌
  get_secret_data-object namespace name s = ground arith

  build_metadata_done :
      (metadata : Metadata) (s : State VdMachine)
      → (build_metadata E vm_id s).0 ≡ done metadata
      → (metadata.instance_id ≡ some vm_id) × (metadata.hostname ≡ some s.object.meta.name)
  unfolding build_metadata ◌>>=◌
  build_metadata_done metadata s h = ground arith

  -- What was put together: the secret that the owner names, as it was read, and a metadata with the
  -- ids of the machine.
  pub record Payload (m : VdMachine) (owner : OwnerMachine) : Type 0 where
    pub name : String
    pub named : owner.data_secret_name ≡ some name
    pub secret : String
    pub reading : List Call
    pub read :
        HoldsSecret
          (E.answer reading (get_secret (record { namespace = m.meta.namespace; name = name })))
          secret
    pub provider_id : String
    pub linked : m.spec.provider_id ≡ some provider_id
    pub metadata : Metadata
    pub described : (metadata.instance_id ≡ some vm_id) × (metadata.hostname ≡ some m.meta.name)

  -- The last calls are those that send the four parameters, in some order: the secret with the
  -- provider id put in, the rendered metadata, and how the two are encoded.
  pub record IsSent (m : VdMachine) (owner : OwnerMachine) (calls : List Call) : Type 0 where
    pub payload : Payload m owner
    pub params : List (String × String)
    pub four : Perm params (
        (
          "guestinfo.userdata",
          encode_base64 (replace_all payload.secret "{ provider_id }" payload.provider_id),
        )
        ∷ ("guestinfo.userdata.encoding", "base64")
        ∷ ("guestinfo.metadata", encode_base64 (render_metadata payload.metadata))
        ∷ ("guestinfo.metadata.encoding", "base64")
        ∷ [])
    pub earlier : List Call
    pub same : calls ≡ sent vm_id params earlier

  send_bootstrap_data-Ends :
      (owner : OwnerMachine) (s : State VdMachine)
      → IsLawful E
      → Ends (λ t. IsSent s.object owner t.calls) (send_bootstrap_data E vm_id owner) s
  unfolding send_bootstrap_data
  send_bootstrap_data-Ends owner s lawful = Ends-get _ s (
      Ends-deref owner.data_secret_name _ s λ name named. Ends-bind_value _ _ s λ secret read.
        Ends-deref s.object.spec.provider_id _ _ λ provider_id linked.
          Ends-bind_value _ _ _ λ metadata built. Ends-history _ _ _ record {
            at = λ a h. record {
              payload = record {
                name = name;
                named = named;
                secret = secret;
                reading = s.calls;
                read = get_secret_data_done s.object.meta.namespace name secret s read;
                provider_id = provider_id;
                linked = linked;
                metadata = metadata;
                described =
                    rw (← get_secret_data-object s.object.meta.namespace name s)
                      (build_metadata_done metadata _ built);
              };
              params = _;
              four = lawful.order-perm (String × String) _ _;
              earlier = _;
              same = for_each_done _ _ h;
            };
          })

  -- The same, with the note that it was sent.
  abbrev pub IsProvided : VdMachine → OwnerMachine → State VdMachine → Type 0
  IsProvided m owner t =
      IsSent m owner t.calls × (t.object.status.initialization.bootstrap_data_provided ≡ true)

  mark_provided-Ends :
      (m : VdMachine) (owner : OwnerMachine) (t : State VdMachine)
      → IsSent m owner t.calls
      → Ends (IsProvided m owner) (modify mark_provided) t
  unfolding ◌>>=◌
  mark_provided-Ends m owner t h = record { at = λ a e. (h, refl) }

  -- If the bootstrap step returns without an error for a machine whose data has not been provided,
  -- then its last calls set four parameters, each once and in some order: guestinfo.userdata,
  -- guestinfo.metadata, and for both of them the parameter with the suffix .encoding, which is set
  -- to base64. The user data is the value of the secret that the owner names, as it was read, with
  -- the provider id of the machine put in; the metadata is a rendered one that has the id of the
  -- virtual machine and the name of the machine. Both are in base 64. The data is then marked as
  -- provided. A walk over a map is taken to meet each entry once.
  pub reconcile_bootstrap_data-sends :
      (owner : OwnerMachine) (s : State VdMachine)
      → IsLawful E
      → s.object.status.initialization.bootstrap_data_provided ≡ false
      → (reconcile_bootstrap_data E vm_id owner s).0 ≡ done tt
      → IsProvided s.object owner (reconcile_bootstrap_data E vm_id owner s).1
  unfolding reconcile_bootstrap_data provide_bootstrap_data
  reconcile_bootstrap_data-sends owner s lawful e =
      (Ends-get _ s (
          Ends-else s.object.status.initialization.bootstrap_data_provided _ _ s e (
            Ends-then _ _ s (send_bootstrap_data-Ends owner s lawful)
              (λ _ t h. mark_provided-Ends s.object owner t h)))).at
        tt
