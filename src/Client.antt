-- ===== src/Client.antt =====
-- internal/controller/vdclient_generator.go
pub mod Starts
use cluster_api_provider_vmw.Base.{String, ◌==◌, if◌then◌else◌}
use cluster_api_provider_vmw.Remote.{getenv, Env}
use cluster_api_provider_vmw.Program.{M, pure, quit, send, ◌>>=◌}

-- The server and the credentials that the client carries.
pub record Client : Type 0 where
  pub url : String
  pub username : String
  pub password : String

module _ {O : Type 0} (E : Env) where
  -- `os.Getenv`, and the end of the process where it is empty.
  required_env : String → M O String
  required_env name = do value ← send E (getenv name); if value == "" then quit else pure value

  -- `NewVDClient`
  unfoldable pub new_vd_client : M O Client
  unfolding required_env
  new_vd_client = do
    url ← required_env "VMREST_URL"
    username ← required_env "VMREST_USERNAME"
    password ← required_env "VMREST_PASSWORD"
    pure (record { url = url; username = username; password = password })
