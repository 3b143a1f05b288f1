-- ===== src/Machine/Vnc.antt =====
-- `reconcileVnc`, `updateVncStatus`, `generatePassword` and `paramToPointer`
pub mod Enabling
pub mod Password
pub mod Remembered
pub mod Settles
pub mod Again
use cluster_api_provider_vmw.Base.{
  ℕ, zero, suc, ◌+◌, String, ◌<>◌, ◌==◌, Bool, false, not, ◌||◌, Option, none, some, List, [], ◌∷◌,
  ◌++◌, bool_eq, if◌then◌else◌,
}
use cluster_api_provider_vmw.Text.{nth, append_char, itoa, parse_bool, upper_bool}
use cluster_api_provider_vmw.Api.Machine.{VdMachine, Vnc}
use cluster_api_provider_vmw.Remote.{
  Http, success, failure, get_vm_params, config_vm_params, rand_intn, Env,
}
use cluster_api_provider_vmw.Program.{
  M, pure, raise, deref, get, history, modify, send, for_each, or_wrap, ◌>>=◌, ◌>>◌, Result,
  no_requeue, requeue, millisecond,
}
use cluster_api_provider_vmw.Machine.Fields.{set_vnc_status, set_vnc_spec}

abbrev pub charset : String
charset = "abcdefghijklmnopqrstuvwxyzABCDEFGHIJKLMNOPQRSTUVWXYZ0123456789"

-- `len(charset)`
abbrev pub charset_len : ℕ
charset_len = 62

-- `length`
abbrev pub password_len : ℕ
password_len = 8

-- `paramToPointer`
abbrev pub param_to_pointer : String → Option String
param_to_pointer s = if s == "" then none else some s

-- `*status != *spec` behind `spec != nil &&`: the status is read only if the spec is there.
abbrev pub differs : {A : Type 0} → (A → A → Bool) → Option A → Option A → M VdMachine Bool
differs eq none status = pure false
differs eq (some wanted) status = do actual ← deref status; pure (not (eq actual wanted))

-- `spec == nil && generate != nil && *generate`
abbrev pub generates : Option String → Option Bool → Bool
generates (some _) generate = false
generates none none = false
generates none (some generate) = generate

-- The map `params`, with the entries that are set.
abbrev pub vnc_params : Option Bool → Option String → Option String → List (String × String)
vnc_params enabled port password =
    (elim enabled [ none ↦ [] | some b ↦ ("enabled", upper_bool b) ∷ [] ])
    ++ ((elim port [ none ↦ [] | some p ↦ ("port", p) ∷ [] ])
        ++ (elim password [ none ↦ [] | some p ↦ ("password", p) ∷ [] ]))

abbrev pub key_prefixes : List String
key_prefixes = "RemoteDisplay" ∷ "remotedisplay" ∷ []

-- A text that is no Boolean is logged and taken for unset.
abbrev pub parse_enabled : Option String → Option Bool
parse_enabled none = none
parse_enabled (some s) = parse_bool s

-- The tests that compute `reconciled`, negated.
unfoldable pub needs_vnc : Vnc → Vnc → M VdMachine Bool
needs_vnc spec status = do
  enabled ← differs bool_eq spec.enabled status.enabled
  port ← differs ◌==◌ spec.port status.port
  password ← differs ◌==◌ spec.password status.password
  pure (
      enabled
      || port
      || generates spec.port spec.generate_port
      || password
      || generates spec.password spec.generate_password)

-- `failed to get param: %v, error: %v`
abbrev pub or_param : String → Http (Option String) → M VdMachine (Option String)
or_param vnc_key (success a) = pure a
or_param vnc_key (failure _ e) = raise ("failed to get param: " <> vnc_key <> ", error: " <> e)

module _ (E : Env) where
  -- The loop of `generatePassword`, with the rounds left and the text so far.
  unfoldable pub generate_from : ℕ → String → M VdMachine String
  generate_from zero password = pure password
  generate_from (suc rounds) password = do
    n ← send E (rand_intn charset_len)
    c ← deref (nth charset n)
    generate_from rounds (append_char password c)

  unfoldable pub generate_password : M VdMachine String
  generate_password = generate_from password_len ""

  -- `rand.Intn(100) + 5900` as a text
  unfoldable pub generate_port : M VdMachine String
  generate_port = do n ← send E (rand_intn 100); pure (itoa (n + 5900))

  -- One call of `GetVMParams`.
  unfoldable pub ask : String → String → M VdMachine (Option String)
  ask vm_id vnc_key = send E (get_vm_params vm_id vnc_key) >>= or_param vnc_key

  -- The inner loop of `updateVncStatus`, which stops at the first value that is not empty.
  unfoldable pub read_param : String → String → List String → String → M VdMachine String
  read_param vm_id key [] value = pure value
  read_param vm_id key (prefix ∷ prefixes) value = do
    answer ← ask vm_id (prefix <> ".vnc." <> key)
    value' ← deref answer
    if value' == "" then read_param vm_id key prefixes value' else pure value'

  unfoldable pub update_vnc_status : String → M VdMachine (Unit {0})
  update_vnc_status vm_id = do
    enabled ← read_param vm_id "enabled" key_prefixes ""
    port ← read_param vm_id "port" key_prefixes ""
    password ← read_param vm_id "password" key_prefixes ""
    modify (
        set_vnc_status (
          some (record {
            enabled = parse_enabled (param_to_pointer enabled);
            port = param_to_pointer port;
            password = param_to_pointer password;
            generate_port = none;
            generate_password = none;
          })))

  unfoldable pub send_vnc : String → String × String → M VdMachine (Unit {0})
  send_vnc vm_id (name, value) = do
    reply ← send E (config_vm_params vm_id ("RemoteDisplay.vnc." <> name) value)
    or_wrap "failed to set param: " reply

  -- `vncSpec` points into the machine, so what is generated is written to the machine's spec.
  unfoldable pub choose_port : Vnc → M VdMachine Vnc
  choose_port spec =
      if generates spec.port spec.generate_port
      then (do
        port ← generate_port
        let spec' = record spec { port = some port }
        modify (set_vnc_spec (some spec'))
        pure spec')
      else pure spec

  unfoldable pub choose_password : Vnc → M VdMachine Vnc
  choose_password spec =
      if generates spec.password spec.generate_password
      then (do
        password ← generate_password
        let spec' = record spec { password = some password }
        modify (set_vnc_spec (some spec'))
        pure spec')
      else pure spec

  -- The part behind `if reconciled { … }`.
  unfoldable pub configure_vnc : String → Vnc → M VdMachine Result
  configure_vnc vm_id spec = do
    spec' ← choose_port spec
    spec'' ← choose_password spec'
    params ←
        history
          (λ h. E.order (String × String) h (vnc_params spec.enabled spec''.port spec''.password))
    for_each params (send_vnc vm_id)
    update_vnc_status vm_id
    pure no_requeue

  unfoldable pub compare_vnc : String → Vnc → Option Vnc → M VdMachine Result
  compare_vnc vm_id status none = pure no_requeue
  compare_vnc vm_id status (some spec) = do
    needed ← needs_vnc spec status
    if needed then configure_vnc vm_id spec else pure no_requeue

  unfoldable pub reconcile_vnc : String → M VdMachine Result
  reconcile_vnc vm_id = do
    m ← get
    elim m.status.vnc [
      | none ↦ update_vnc_status vm_id >> pure (requeue millisecond)
      | some status ↦ compare_vnc vm_id status m.spec.vnc
    ]
