-- ===== src/Machine/Vnc/Settles.antt =====
-- The VNC step has nothing left to do when it returns.
use Prim.Native.String.{count}
use text.Mathlib.TextLemmas
use mathlib.Core.List.{Perm}
use cluster_api_provider_vmw.Base.{
  Bool-cases, inl, inr, ◌+◌, ◌<◌, String, ◌==◌, eq_iff, ◌≡◌, refl, ap, ◌∙◌, Bool, true, false,
  Option, none, some, List, any, every, every-Perm, any-Perm, bool_eq, arith,
}
use cluster_api_provider_vmw.Text.{upper_bool, parse_bool}
use cluster_api_provider_vmw.Text.Digits.{itoa-nonempty}
use cluster_api_provider_vmw.Api.Machine.{VdMachine, Vnc}
use cluster_api_provider_vmw.Remote.{rand_intn, Env, IsLawful}
use cluster_api_provider_vmw.Program.{State, done, for_each, pure, ◌>>=◌, ◌>>◌, no_requeue}
use cluster_api_provider_vmw.Program.Returns.{
  Ends, Ends-bind_value, Ends-then, Ends-pure, Ends-history,
}
use cluster_api_provider_vmw.Machine.Vnc.{
  generates, vnc_params, generate_port, choose_port, choose_password, send_vnc, update_vnc_status,
  configure_vnc, compare_vnc, needs_vnc, differs, parse_enabled, param_to_pointer, reconcile_vnc,
}
use cluster_api_provider_vmw.Machine.Vnc.Password.{generate_password-IsDrawn}
use cluster_api_provider_vmw.Machine.Vnc.Remembered.{
  agrees, names, sends_done, sends-object, Remembers, last_set, param_of, Shows,
  update_vnc_status-Shows,
}

-- There is a text, and it is empty.
abbrev pub is_blank : Option String → Bool
is_blank none = false
is_blank (some text) = text == ""

-- What is known of the settings after one of the two choices.
abbrev HasPort : Vnc → Type 0
HasPort spec = (generates spec.port spec.generate_port ≡ false) × (is_blank spec.port ≡ false)

abbrev HasPassword : Vnc → Type 0
HasPassword spec =
    (generates spec.password spec.generate_password ≡ false) × (is_blank spec.password ≡ false)

count-nonempty : (s : String) → 0 < count s → (s == "") ≡ false
count-nonempty s h = elim (Bool-cases (s == "")) [
  | inl e ↦
      let empty = ap count ((eq_iff s "").0 e) in
      let zero_long = TextLemmas.length-nil in absurd (omega (arith, h, empty, zero_long))
  | inr e ↦ e
]

module _ (E : Env) where
  choose_port_done :
      (spec spec' : Vnc) (s : State VdMachine)
      → s.object.spec.vnc ≡ some spec
      → is_blank spec.port ≡ false
      → (choose_port E spec s).0 ≡ done spec'
      → HasPort spec'
        × (spec'.password ≡ spec.password)
        × (spec'.enabled ≡ spec.enabled)
        × ((choose_port E spec s).1.object.spec.vnc ≡ some spec')
  unfolding choose_port generate_port ◌>>=◌
  choose_port_done spec spec' s e proper h =
      let n = E.answer s.calls (rand_intn 100) + 5900 in
      let text = itoa-nonempty n (omega arith) in ground arith

  choose_password_done :
      (spec spec' : Vnc) (s : State VdMachine)
      → IsLawful E
      → s.object.spec.vnc ≡ some spec
      → is_blank spec.password ≡ false
      → HasPort spec
      → (choose_password E spec s).0 ≡ done spec'
      → HasPort spec'
        × HasPassword spec'
        × (spec'.enabled ≡ spec.enabled)
        × ((choose_password E spec s).1.object.spec.vnc ≡ some spec')
  unfolding choose_password ◌>>=◌
  choose_password_done spec spec' s lawful e proper port h =
      let (p, found, eight, drawn, same) = generate_password-IsDrawn E s lawful in
      let text = count-nonempty p (omega (arith, eight)) in ground arith

-- What is sent for each setting.
enabled_sent :
    (b : Bool) (port password : Option String)
    → (every (agrees "enabled" (upper_bool b)) (vnc_params (some b) port password) ≡ true)
      × (any (names "enabled") (vnc_params (some b) port password) ≡ true)
enabled_sent b port password = let e = eq_iff (upper_bool b) (upper_bool b) in ground arith

port_sent :
    (enabled : Option Bool) (port : String) (password : Option String)
    → (every (agrees "port" port) (vnc_params enabled (some port) password) ≡ true)
      × (any (names "port") (vnc_params enabled (some port) password) ≡ true)
port_sent enabled port password = let e = eq_iff port port in ground arith

password_sent :
    (enabled : Option Bool) (port : Option String) (password : String)
    → (every (agrees "password" password) (vnc_params enabled port (some password)) ≡ true)
      × (any (names "password") (vnc_params enabled port (some password)) ≡ true)
password_sent enabled port password = let e = eq_iff password password in ground arith

-- The status has the settings that the spec asks for.
abbrev pub Agrees : Vnc → Vnc → Type 0
Agrees spec status =
    ((b : Bool) → spec.enabled ≡ some b → status.enabled ≡ some b)
    × ((p : String) → spec.port ≡ some p → status.port ≡ some p)
    × ((p : String) → spec.password ≡ some p → status.password ≡ some p)

-- Nothing is left to do.
pub record Settled (m : VdMachine) : Type 0 where
  pub spec : Vnc
  pub spec_is : m.spec.vnc ≡ some spec
  pub port : generates spec.port spec.generate_port ≡ false
  pub password : generates spec.password spec.generate_password ≡ false
  pub status : Vnc
  pub status_is : m.status.vnc ≡ some status
  pub agree : Agrees spec status

bool_eq_refl : (b : Bool) → bool_eq b b ≡ true
bool_eq_refl true = refl
bool_eq_refl false = refl

differs_lem :
    {A : Type 0} (eq : A → A → Bool) (wanted actual : Option A) (s : State VdMachine)
    → ((a : A) → eq a a ≡ true)
    → ((a : A) → wanted ≡ some a → actual ≡ some a)
    → differs eq wanted actual s ≡ (done false, s)
unfolding ◌>>=◌
differs_lem eq none actual s same agree = refl
differs_lem eq (some a) actual s same agree = let k = agree a refl in rw (k, same a)

upper-nonempty : (b : Bool) → (upper_bool b == "") ≡ false
upper-nonempty true = refl
upper-nonempty false = refl

-- The text that is sent for a flag is read as that flag.
parse_upper : (b : Bool) → parse_enabled (param_to_pointer (upper_bool b)) ≡ some b
unfolding parse_bool
parse_upper true = refl
parse_upper false = refl

pointer_lem :
    (x p : String) (o : Option String)
    → o ≡ some p
    → is_blank o ≡ false
    → ((p == "") ≡ false → x ≡ p)
    → param_to_pointer x ≡ some p
pointer_lem x p o e proper read =
    let nonempty : (p == "") ≡ false = ground arith in
    ap param_to_pointer (read nonempty) ∙ rw (nonempty) refl

module _ (E : Env) (vm_id : String) where
  needs_vnc_lem :
      (spec status : Vnc) (s : State VdMachine)
      → Agrees spec status
      → generates spec.port spec.generate_port ≡ false
      → generates spec.password spec.generate_password ≡ false
      → needs_vnc spec status s ≡ (done false, s)
  unfolding needs_vnc ◌>>=◌
  needs_vnc_lem spec status s agree port password =
      let a = differs_lem bool_eq spec.enabled status.enabled s (λ b. bool_eq_refl b) agree.0 in
      let b = differs_lem ◌==◌ spec.port status.port s (λ p. (eq_iff p p).1 refl) agree.1 in
      let c = differs_lem ◌==◌ spec.password status.password s (λ p. (eq_iff p p).1 refl) agree.2 in
      rw (a, b, c, port, password)

  pub Settled-quiet :
      (s : State VdMachine) → Settled s.object → reconcile_vnc E vm_id s ≡ (done no_requeue, s)
  unfolding reconcile_vnc compare_vnc ◌>>=◌
  Settled-quiet s h =
      let n = needs_vnc_lem h.spec h.status s h.agree h.port h.password in
      let a = h.spec_is in let b = h.status_is in ground arith

  -- Where the spec has a setting, the status that is read has it.
  Shows-Settled :
      (spec : Vnc) (s t : State VdMachine)
      → s.object.spec.vnc ≡ some spec
      → HasPort spec
      → HasPassword spec
      → ((b : Bool)
          → spec.enabled ≡ some b
          → last_set vm_id (param_of "enabled") s.calls ≡ some (upper_bool b))
      → ((p : String) → spec.port ≡ some p → last_set vm_id (param_of "port") s.calls ≡ some p)
      → ((p : String)
          → spec.password ≡ some p
          → last_set vm_id (param_of "password") s.calls ≡ some p)
      → Shows E vm_id s t
      → Settled t.object
  Shows-Settled spec s t e port password a b c shows = record {
    spec = spec;
    spec_is = ap (λ (m : VdMachine). m.spec.vnc) shows.same ∙ e;
    port = port.0;
    password = password.0;
    status = _;
    status_is = ap (λ (m : VdMachine). m.status.vnc) shows.same;
    agree = (
      λ b' w.
          ap (λ x. parse_enabled (param_to_pointer x))
            (shows.enabled_read (upper_bool b') (a b' w) (upper-nonempty b'))
          ∙ parse_upper b',
      λ p w. pointer_lem shows.port p (spec.port) w port.1 (shows.port_read p (b p w)),
      λ p w.
          pointer_lem shows.password p (spec.password) w password.1 (shows.password_read p (c p w)),
    );
  }

  -- The settings are sent and read back.
  send_all-Ends :
      (spec : Vnc) (params : List (String × String)) (s : State VdMachine)
      → Remembers E vm_id
      → s.object.spec.vnc ≡ some spec
      → HasPort spec
      → HasPassword spec
      → Perm params (vnc_params spec.enabled spec.port spec.password)
      → Ends
          (λ t. Settled t.object)
          (for_each params (send_vnc E vm_id) >> (update_vnc_status E vm_id >> pure no_requeue))
          s
  send_all-Ends spec params s remembers e port password perm =
      Ends-bind_value (for_each params (send_vnc E vm_id)) _ s λ _ sent.
        let t : State VdMachine = (for_each params (send_vnc E vm_id) s).1 in
        let object = sends-object E vm_id params s in
        let set =
          λ (key value : String)
              (k : (every (agrees key value) (vnc_params spec.enabled spec.port spec.password)
                  ≡ true)
                × (any (names key) (vnc_params spec.enabled spec.port spec.password) ≡ true)).
            sends_done E vm_id key value params s sent (every-Perm _ _ _ perm k.0)
              (inr (any-Perm _ _ _ perm k.1)) in
        Ends-then (update_vnc_status E vm_id) _ t (update_vnc_status-Shows E vm_id t remembers)
          λ _ u shows. Ends-pure no_requeue u (
            Shows-Settled spec t u (ap (λ m. m.spec.vnc) object ∙ e) port password
              (λ b w. set "enabled" (upper_bool b) (rw w (enabled_sent b spec.port spec.password)))
              (λ p w. set "port" p (rw w (port_sent spec.enabled p spec.password)))
              (λ p w. set "password" p (rw w (password_sent spec.enabled spec.port p))) shows)

  pub configure_vnc-Ends :
      (spec : Vnc) (s : State VdMachine)
      → IsLawful E
      → Remembers E vm_id
      → s.object.spec.vnc ≡ some spec
      → is_blank spec.port ≡ false
      → is_blank spec.password ≡ false
      → Ends (λ t. Settled t.object) (configure_vnc E vm_id spec) s
  unfolding configure_vnc
  configure_vnc-Ends spec s lawful remembers e port password =
      Ends-bind_value (choose_port E spec) _ s λ spec' c.
        let a = choose_port_done E spec spec' s e port c in
        Ends-bind_value (choose_password E spec') _ _ λ spec'' d.
          let b =
            choose_password_done E spec' spec'' _ lawful a.3 (ap is_blank a.1 ∙ password) a.0 d in
          Ends-history _ _ _ (
            send_all-Ends spec'' _ _ remembers b.3 b.0 b.1 (
              rw (b.2 ∙ a.2) (
                lawful.order-perm (String × String) _
                  (vnc_params spec.enabled spec''.port spec''.password))))
