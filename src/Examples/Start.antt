-- ===== src/Examples/Start.antt =====
-- Starts of the process.
use cluster_api_provider_vmw.Base.{◌≡◌, refl, true, none, some, List, [], ◌∷◌}
use cluster_api_provider_vmw.Program.{State, for_each, ◌>>=◌}
use cluster_api_provider_vmw.Process.{SetupCall, Host, ask, or_exit, step}
use cluster_api_provider_vmw.Process.Controllers.{setup_cluster, setup_machine}
use cluster_api_provider_vmw.Process.Main.{
  Flags, default_flags, webhook_files, manager_options, watcher, add_cert_watcher, run_manager,
  main,
}
use cluster_api_provider_vmw.Process.Main.Plan.{plan, main-follows}
use cluster_api_provider_vmw.Process.Main.Started.{made, accepted, main-starts}
use cluster_api_provider_vmw.Process.Main.Tls.{TlsConfig, apply_all, served, manager_options-serve}

-- Nothing fails.
abbrev host : Host
host = record { answer = λ calls c. none }

-- A certificate for the webhook server.
abbrev webhook_flags : Flags
webhook_flags = record default_flags { webhook_cert_path = "/certs" }

abbrev begin : State (List SetupCall)
begin = record { object = []; calls = [] }

main-follows_example :
    main host webhook_flags begin ≡ for_each (plan webhook_flags) (step host) begin
main-follows_example = main-follows host webhook_flags begin

main-starts_example :
    ((main host webhook_flags begin).1.object ≡ made (plan webhook_flags) [])
    × (accepted host (plan webhook_flags) [] ≡ true)
unfolding main run_manager watcher add_cert_watcher setup_cluster setup_machine step ask or_exit
    ◌>>=◌
main-starts_example = main-starts host webhook_flags begin refl refl

abbrev plain_config : TlsConfig
plain_config = record { next_protos = "h2" ∷ []; get_certificate = none }

manager_options-serve_example :
    (apply_all
        (manager_options webhook_flags (some (webhook_files webhook_flags)) none).webhook
        plain_config
      ≡ served webhook_flags (some (webhook_files webhook_flags)) plain_config)
    × (apply_all
          (manager_options webhook_flags (some (webhook_files webhook_flags)) none).metrics.tls_opts
          plain_config
        ≡ served webhook_flags none plain_config)
manager_options-serve_example =
    manager_options-serve webhook_flags (some (webhook_files webhook_flags)) none plain_config
