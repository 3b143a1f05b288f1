-- ===== src/Client/Starts.antt =====
-- When `NewVDClient` returns.
use cluster_api_provider_vmw.Base.{String, ◌≡◌, ◌==◌, ◌↔◌, arith, false, List, ◌∷◌}
use cluster_api_provider_vmw.Remote.{Call, getenv, Env}
use cluster_api_provider_vmw.Program.{State, done, ◌>>=◌}
use cluster_api_provider_vmw.Client.{new_vd_client}

module _ {O : Type 0} (E : Env) (value : String → String) where
  -- If the environment answers each variable in the same way at each read, the client is built, with
  -- the values of the three variables, exactly if none of them is empty.
  pub new_vd_client-starts :
      (s : State O)
      → ((calls : List Call) (name : String) → E.answer calls (getenv name) ≡ value name)
      → (((value "VMREST_URL" == "") ≡ false)
          × ((value "VMREST_USERNAME" == "") ≡ false)
          × ((value "VMREST_PASSWORD" == "") ≡ false))
        ↔ ((new_vd_client E s).0
            ≡ done (record {
              url = value "VMREST_URL";
              username = value "VMREST_USERNAME";
              password = value "VMREST_PASSWORD";
            }))
  unfolding new_vd_client ◌>>=◌
  new_vd_client-starts s stable =
      let a = stable s.calls "VMREST_URL" in
      let b = stable (getenv "VMREST_URL" ∷ s.calls) "VMREST_USERNAME" in
      let c = stable (getenv "VMREST_USERNAME" ∷ getenv "VMREST_URL" ∷ s.calls) "VMREST_PASSWORD" in
      ground arith

-- The calls of `NewVDClient` before the earlier ones.
abbrev pub client_calls : List Call → List Call
client_calls calls =
    getenv "VMREST_PASSWORD" ∷ getenv "VMREST_USERNAME" ∷ getenv "VMREST_URL" ∷ calls

-- The variables have the same values at each read, and none is empty.
pub record IsConfigured (E : Env) (url username password : String) : Type 0 where
  pub url_set : (calls : List Call) → E.answer calls (getenv "VMREST_URL") ≡ url
  pub username_set : (calls : List Call) → E.answer calls (getenv "VMREST_USERNAME") ≡ username
  pub password_set : (calls : List Call) → E.answer calls (getenv "VMREST_PASSWORD") ≡ password
  pub url_nonempty : (url == "") ≡ false
  pub username_nonempty : (username == "") ≡ false
  pub password_nonempty : (password == "") ≡ false

module _ {O : Type 0} (E : Env) (url username password : String) where
  pub new_vd_client_configured :
      (s : State O)
      → IsConfigured E url username password
      → (new_vd_client E s) ≡ (
        done (record { url = url; username = username; password = password }),
        record s { calls = client_calls s.calls },
      )
  unfolding new_vd_client ◌>>=◌
  new_vd_client_configured s h =
      let a = h.url_set s.calls in
      let b = h.username_set (getenv "VMREST_URL" ∷ s.calls) in
      let c = h.password_set (getenv "VMREST_USERNAME" ∷ getenv "VMREST_URL" ∷ s.calls) in
      let d = h.url_nonempty in
      let e = h.username_nonempty in let f = h.password_nonempty in ground arith
