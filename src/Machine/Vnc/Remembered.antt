-- ===== src/Machine/Vnc/Remembered.antt =====
-- What a service that remembers parameters tells after they were set.
use text.Mathlib.TextLemmas
use cluster_api_provider_vmw.Base.{
  String, ◌==◌, ◌<>◌, eq_iff, ◌≡◌, refl, ap, ◌∙◌, Bool, true, false, not, ◌||◌, ◌&&◌, ◌⊎◌, inl, inr,
  Bool-cases, Option, none, some, List, [], ◌∷◌, any, every, arith, if◌then◌else◌,
}
use cluster_api_provider_vmw.Api.Machine.{VdMachine}
use cluster_api_provider_vmw.Remote.{
  Call, config_vm_params, get_vm_params, success, failure, Http, Env,
}
use cluster_api_provider_vmw.Program.{State, done, send, modify, for_each, ◌>>=◌}
use cluster_api_provider_vmw.Program.Returns.{bind-Returned, Ends, Ends-bind_value}
use cluster_api_provider_vmw.Program.Keeps.{
  Keeps, Keeps-pure, Keeps-raise, Keeps-bind, Keeps-deref, Keeps-if, Keeps-for_each,
}
use cluster_api_provider_vmw.Machine.Fields.{set_vnc_status}
use cluster_api_provider_vmw.Machine.Vnc.{
  or_param, send_vnc, read_param, ask, key_prefixes, update_vnc_status, parse_enabled,
  param_to_pointer,
}

-- The name under which a setting is sent.
abbrev pub param_of : String → String
param_of key = "RemoteDisplay.vnc." <> key

-- The value that a parameter was last set to.
abbrev pub last_set : String → String → List Call → Option String
last_set vm_id name [] = none
last_set vm_id name (config_vm_params vm other value ∷ calls) =
    let earlier = last_set vm_id name calls in
    if vm == vm_id && other == name then some value else earlier
last_set vm_id name (_ ∷ calls) = last_set vm_id name calls

-- The service answers a question for a parameter with what the parameter was last set to.
abbrev pub Remembers : Env → String → Type 0
Remembers E vm_id =
    (calls : List Call) (name value : String)
    → last_set vm_id name calls ≡ some value
    → E.answer calls (get_vm_params vm_id name) ≡ success (some value)

same_both : (a b : Bool) → (a ≡ true → b ≡ true) → (b ≡ true → a ≡ true) → a ≡ b
same_both a b f g = ground arith

param_of_lem : (name key : String) → (param_of name == param_of key) ≡ (name == key)
param_of_lem name key =
    let long = eq_iff (param_of name) (param_of key) in
    let short = eq_iff name key in
    same_both _ _
      (λ h. short.1 (TextLemmas.append_cancel_left "RemoteDisplay.vnc." name key (long.0 h)))
      (λ h. long.1 (ap param_of (short.0 h)))

-- A pair for the key has the value.
abbrev pub agrees : String → String → String × String → Bool
agrees key value (name, v) = not (name == key) || v == value

abbrev pub names : String → String × String → Bool
names key (name, v) = name == key

module _ (E : Env) (vm_id key value : String) where
  send_vnc_done :
      (p : String × String) (s : State VdMachine)
      → (send_vnc E vm_id p s).0 ≡ done tt
      → agrees key value p ≡ true
      → (last_set vm_id (param_of key) s.calls ≡ some value) ⊎ (names key p ≡ true)
      → last_set vm_id (param_of key) (send_vnc E vm_id p s).1.calls ≡ some value
  unfolding send_vnc ◌>>=◌
  send_vnc_done (name, v) s h agree why =
      let e = param_of_lem name key in
      let same = eq_iff vm_id vm_id in let right = eq_iff v value in ground arith

  pub sends_done :
      (params : List (String × String)) (s : State VdMachine)
      → (for_each params (send_vnc E vm_id) s).0 ≡ done tt
      → every (agrees key value) params ≡ true
      → (last_set vm_id (param_of key) s.calls ≡ some value) ⊎ (any (names key) params ≡ true)
      → last_set vm_id (param_of key) (for_each params (send_vnc E vm_id) s).1.calls ≡ some value
  unfolding for_each ◌>>=◌
  sends_done [] s h agree why = ground arith
  sends_done (p ∷ params) s h agree why =
      let r = bind-Returned (send_vnc E vm_id p) (λ _. for_each params (send_vnc E vm_id)) s tt h in
      ap (λ q. last_set vm_id (param_of key) q.1.calls) r.same
      ∙ sends_done params (send_vnc E vm_id p s).1 r.rest (ground arith) (elim why [
        | inl old ↦ inl (send_vnc_done p s r.first (ground arith) (inl old))
        | inr here ↦ elim (Bool-cases (names key p)) [
          | inl n ↦ inl (send_vnc_done p s r.first (ground arith) (inr n))
          | inr n ↦ inr (ground arith)
        ]
      ])

-- Nothing but questions for parameters was called, and the object is as before.
abbrev pub OnlyAsked : String → State VdMachine → State VdMachine → Type 0
OnlyAsked vm_id s t =
    (t.object ≡ s.object)
    × ((name : String) → last_set vm_id name t.calls ≡ last_set vm_id name s.calls)

module _ (E : Env) (vm_id : String) where
  or_param-Keeps :
      (s : State VdMachine) (name : String) (answer : Http (Option String))
      → Keeps (OnlyAsked vm_id s) (or_param name answer)
  or_param-Keeps s name (success a) = Keeps-pure a
  or_param-Keeps s name (failure code e) = Keeps-raise _

  sent-Keeps :
      (s : State VdMachine) (name : String)
      → Keeps (OnlyAsked vm_id s) (send E (get_vm_params vm_id name))
  unfolding ◌>>=◌
  sent-Keeps s name = record { at = λ t h. (h.0, h.1) }

  ask-Keeps : (s : State VdMachine) (name : String) → Keeps (OnlyAsked vm_id s) (ask E vm_id name)
  unfolding ask
  ask-Keeps s name = Keeps-bind _ _ (sent-Keeps s name) λ answer. or_param-Keeps s name answer

  read_param-Keeps :
      (s : State VdMachine) (key : String) (prefixes : List String) (value : String)
      → Keeps (OnlyAsked vm_id s) (read_param E vm_id key prefixes value)
  unfolding read_param
  read_param-Keeps s key [] value = Keeps-pure value
  read_param-Keeps s key (prefix ∷ prefixes) value = Keeps-bind _ _ (ask-Keeps s _) λ answer.
      Keeps-bind _ _ (Keeps-deref answer) λ value'.
        Keeps-if (value' == "") _ _ (read_param-Keeps s key prefixes value') (Keeps-pure value')

  -- A setting that is there and not empty is read.
  read_param_set :
      (key value : String) (s : State VdMachine)
      → Remembers E vm_id
      → "RemoteDisplay" <> ".vnc." <> key ≡ param_of key
      → last_set vm_id (param_of key) s.calls ≡ some value
      → (value == "") ≡ false
      → (read_param E vm_id key key_prefixes "" s).0 ≡ done value
  unfolding read_param ask ◌>>=◌
  read_param_set key value s remembers name e nonempty =
      let told = remembers s.calls (param_of key) value e in rw (name, told, nonempty)

  -- The value that is read is the one that was set, where that is not empty.
  abbrev pub IsRead : String → State VdMachine → String → Type 0
  IsRead key s value =
      (v : String) → last_set vm_id (param_of key) s.calls ≡ some v → (v == "") ≡ false → value ≡ v

  read_param_lem :
      (key value : String) (s t : State VdMachine)
      → Remembers E vm_id
      → "RemoteDisplay" <> ".vnc." <> key ≡ param_of key
      → OnlyAsked vm_id s t
      → (read_param E vm_id key key_prefixes "" t).0 ≡ done value
      → IsRead key s value × OnlyAsked vm_id s (read_param E vm_id key key_prefixes "" t).1
  read_param_lem key value s t remembers name same h = (
    λ v e nonempty.
        let k = read_param_set key v t remembers name (same.1 (param_of key) ∙ e) nonempty in
        ground arith,
    (read_param-Keeps s key key_prefixes "").at t same,
  )

  -- The status says what was set.
  pub record Shows (s : State VdMachine) (t : State VdMachine) : Type 0 where
    pub enabled : String
    pub enabled_read : IsRead "enabled" s enabled
    pub port : String
    pub port_read : IsRead "port" s port
    pub password : String
    pub password_read : IsRead "password" s password
    pub same :
        t.object
        ≡ set_vnc_status
            (some (record {
              enabled = parse_enabled (param_to_pointer enabled);
              port = param_to_pointer port;
              password = param_to_pointer password;
              generate_port = none;
              generate_password = none;
            }))
            s.object

  set_status-Ends :
      (s t : State VdMachine) (enabled port password : String)
      → IsRead "enabled" s enabled
      → IsRead "port" s port
      → IsRead "password" s password
      → t.object ≡ s.object
      → Ends
          (Shows s)
          (modify (
            set_vnc_status (
              some (record {
                enabled = parse_enabled (param_to_pointer enabled);
                port = param_to_pointer port;
                password = param_to_pointer password;
                generate_port = none;
                generate_password = none;
              }))))
          t
  unfolding ◌>>=◌
  set_status-Ends s t enabled port password a b c same = record {
    at = λ _ _. record {
      enabled = enabled;
      enabled_read = a;
      port = port;
      port_read = b;
      password = password;
      password_read = c;
      same = ap (set_vnc_status _) same;
    };
  }

  pub update_vnc_status-Shows :
      (s : State VdMachine) → Remembers E vm_id → Ends (Shows s) (update_vnc_status E vm_id) s
  unfolding update_vnc_status
  update_vnc_status-Shows s remembers = Ends-bind_value _ _ s λ enabled e.
      let a = read_param_lem "enabled" enabled s s remembers refl (refl, λ name. refl) e in
      Ends-bind_value _ _ _ λ port p.
        let b = read_param_lem "port" port s _ remembers refl a.1 p in
        Ends-bind_value _ _ _ λ password w.
          let c = read_param_lem "password" password s _ remembers refl b.1 w in
          set_status-Ends s _ enabled port password a.0 b.0 c.0 c.1.0

  send_vnc-Keeps :
      (m : VdMachine) (p : String × String) → Keeps (λ t. t.object ≡ m) (send_vnc E vm_id p)
  unfolding send_vnc ◌>>=◌
  send_vnc-Keeps m (name, v) = record { at = λ t h. ground arith }

  pub sends-object :
      (params : List (String × String)) (s : State VdMachine)
      → (for_each params (send_vnc E vm_id) s).1.object ≡ s.object
  sends-object params s =
      (Keeps-for_each (send_vnc E vm_id) params (send_vnc-Keeps s.object)).at s refl
