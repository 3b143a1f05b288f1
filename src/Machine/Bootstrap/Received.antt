-- ===== src/Machine/Bootstrap/Received.antt =====
-- What a virtual machine reads from the parameters of the bootstrap step.
use mathlib.Core.Logic.{∥∥₁_elim, inl, inr}
use mathlib.Core.List.{
  Mem, Mem-prop, not-mem-nil, mem-cons_self, mem-cons_of_mem, eq-or-mem_of_mem-cons,
}
use mathlib.Core.List.Perm
use mathlib.Core.Path.{subst}
use cluster_api_provider_vmw.Base.{String, ◌≡◌, sym, List, [], ◌∷◌, false}
use cluster_api_provider_vmw.Text.{replace_all}
use cluster_api_provider_vmw.Text.Base64.{bytes_of, encode_base64}
use cluster_api_provider_vmw.Text.Base64.Decode.{decode_base64, decode-encode_base64}
use cluster_api_provider_vmw.Api.Machine.{VdMachine}
use cluster_api_provider_vmw.Remote.{Call, OwnerMachine, config_vm_params, Env, IsLawful}
use cluster_api_provider_vmw.Program.{State, done}
use cluster_api_provider_vmw.Machine.Metadata.{render_metadata}
use cluster_api_provider_vmw.Machine.Bootstrap.{reconcile_bootstrap_data}
use cluster_api_provider_vmw.Machine.Bootstrap.Sent.{
  sent, Payload, IsSent, reconcile_bootstrap_data-sends,
}

-- What was called stays in the list of calls.
sent-keeps :
    (vm_id : String) (params : List (String × String)) (calls : List Call) (c : Call)
    → Mem c calls
    → Mem c (sent vm_id params calls)
sent-keeps vm_id [] calls c h = h
sent-keeps vm_id ((name, value) ∷ params) calls c h =
    sent-keeps vm_id params _ c (mem-cons_of_mem _ h)

Mem-sent :
    (vm_id : String) (params : List (String × String)) (calls : List Call) (name value : String)
    → Mem (name, value) params
    → Mem (config_vm_params vm_id name value) (sent vm_id params calls)
Mem-sent vm_id [] calls name value h = absurd (not-mem-nil h)
Mem-sent vm_id ((name', value') ∷ params) calls name value h =
    ∥∥₁_elim (eq-or-mem_of_mem-cons h) Mem-prop λ p. elim p [
      | inl e ↦ sent-keeps vm_id params _ _ (
          subst
            (λ (q : String × String).
              Mem (config_vm_params vm_id name value) (config_vm_params vm_id q.0 q.1 ∷ calls))
            e mem-cons_self)
      | inr there ↦ Mem-sent vm_id params _ name value there
    ]

-- The calls gave the virtual machine the user data and the metadata.
pub record IsReceived (E : Env) (vm_id : String) (m : VdMachine) (owner : OwnerMachine)
    (calls : List Call) : Type 0 where
  pub payload : Payload E vm_id m owner
  pub userdata : String
  pub userdata_sent : Mem (config_vm_params vm_id "guestinfo.userdata" userdata) calls
  pub userdata_decodes :
      decode_base64 userdata
      ≡ bytes_of (replace_all payload.secret "{ provider_id }" payload.provider_id)
  pub metadata : String
  pub metadata_sent : Mem (config_vm_params vm_id "guestinfo.metadata" metadata) calls
  pub metadata_decodes : decode_base64 metadata ≡ bytes_of (render_metadata payload.metadata)

-- What the four parameters are for the two texts.
abbrev parameters : String → String → List (String × String)
parameters userdata metadata =
    ("guestinfo.userdata", encode_base64 userdata)
    ∷ ("guestinfo.userdata.encoding", "base64")
    ∷ ("guestinfo.metadata", encode_base64 metadata)
    ∷ ("guestinfo.metadata.encoding", "base64")
    ∷ []

IsSent-IsReceived :
    (E : Env) (vm_id : String) (m : VdMachine) (owner : OwnerMachine) (calls : List Call)
    → IsSent E vm_id m owner calls
    → IsReceived E vm_id m owner calls
IsSent-IsReceived E vm_id m owner calls h =
    let text = replace_all h.payload.secret "{ provider_id }" h.payload.provider_id in
    let yaml = render_metadata h.payload.metadata in
    let member = λ (p : String × String) (k : Mem p (parameters text yaml)).
      subst (Mem (config_vm_params vm_id p.0 p.1)) (sym h.same)
        (Mem-sent vm_id h.params h.earlier p.0 p.1 ((Perm.mem_iff h.four).1 k)) in
    record {
      payload = h.payload;
      userdata = encode_base64 text;
      userdata_sent = member _ mem-cons_self;
      userdata_decodes = decode-encode_base64 text;
      metadata = encode_base64 yaml;
      metadata_sent = member _ (mem-cons_of_mem _ (mem-cons_of_mem _ mem-cons_self));
      metadata_decodes = decode-encode_base64 yaml;
    }

-- If the bootstrap step returns without an error for a machine whose data has not been provided,
-- then it gave the virtual machine a user data and a metadata in base 64, and decoding them gives the
-- bytes of the secret that the owner names, as it was read and with the provider id put in, and the bytes of
-- a rendered metadata with the ids of the machine. A walk over a map is taken to meet each entry once.
pub reconcile_bootstrap_data-decodes :
    (E : Env) (vm_id : String) (owner : OwnerMachine) (s : State VdMachine)
    → IsLawful E
    → s.object.status.initialization.bootstrap_data_provided ≡ false
    → (reconcile_bootstrap_data E vm_id owner s).0 ≡ done tt
    → IsReceived E vm_id s.object owner (reconcile_bootstrap_data E vm_id owner s).1.calls
reconcile_bootstrap_data-decodes E vm_id owner s lawful e h =
    IsSent-IsReceived E vm_id s.object owner _
      (reconcile_bootstrap_data-sends E vm_id owner s lawful e h).0
