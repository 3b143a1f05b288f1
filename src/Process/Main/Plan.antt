-- ===== src/Process/Main/Plan.antt =====
-- The calls of `main` as one list.
use cluster_api_provider_vmw.Base.{
  String, ◌==◌, ◌≡◌, Option, none, some, List, [], ◌∷◌, ◌++◌, arith, if◌then◌else◌,
}
use cluster_api_provider_vmw.Program.{M, State, for_each, ◌>>=◌, ◌>>◌}
use cluster_api_provider_vmw.Process.{
  CertFiles, SetupCall, complete, new_cert_watcher, get_config, new_manager, add_watcher,
  add_healthz_check, add_readyz_check, start, Host, step, ask, or_exit,
}
use cluster_api_provider_vmw.Process.Controllers.{
  cluster_controller, machine_controller, setup_cluster, setup_machine,
}
use cluster_api_provider_vmw.Process.Main.{
  Flags, webhook_files, metrics_files, manager_options, watcher, add_cert_watcher, run_manager,
  main,
}

-- A watcher is wanted where a path is given.
abbrev pub wanted : String → CertFiles → Option CertFiles
wanted path files = if path == "" then none else some files

abbrev pub for_watcher : (CertFiles → SetupCall) → Option CertFiles → List SetupCall
for_watcher call none = []
for_watcher call (some files) = call files ∷ []

abbrev pub webhook_watcher : Flags → Option CertFiles
webhook_watcher flags = wanted flags.webhook_cert_path (webhook_files flags)

abbrev pub metrics_watcher : Flags → Option CertFiles
metrics_watcher flags = wanted flags.metrics_cert_path (metrics_files flags)

-- What has to be done before the manager is started, for the two watchers.
abbrev pub manager_plan : Option CertFiles → Option CertFiles → List SetupCall
manager_plan webhook metrics =
    complete cluster_controller
    ∷ complete machine_controller
    ∷ (for_watcher add_watcher metrics
        ++ (for_watcher add_watcher webhook
            ++ add_healthz_check "healthz" ∷ add_readyz_check "readyz" ∷ start ∷ []))

abbrev pub plan : Flags → List SetupCall
plan flags =
    for_watcher new_cert_watcher (webhook_watcher flags)
    ++ (for_watcher new_cert_watcher (metrics_watcher flags)
        ++ (get_config
            ∷ new_manager (manager_options flags (webhook_watcher flags) (metrics_watcher flags))
            ∷ manager_plan (webhook_watcher flags) (metrics_watcher flags)))

module _ (F : Host) where
  -- A step, and then the rest of a plan.
  step-follows :
      (c : SetupCall) (cs : List SetupCall) (k : M (List SetupCall) (Unit {0}))
      → ((t : State (List SetupCall)) → k t ≡ for_each cs (step F) t)
      → (s : State (List SetupCall)) → (step F c >> k) s ≡ for_each (c ∷ cs) (step F) s
  unfolding for_each step ask or_exit ◌>>=◌
  step-follows c cs k h s = let e = h (record s { object = c ∷ s.object }) in ground arith

  last-follows :
      (c : SetupCall) (s : State (List SetupCall)) → step F c s ≡ for_each (c ∷ []) (step F) s
  unfolding for_each step ask or_exit ◌>>=◌
  last-follows c s = ground arith

  added-follows :
      (w : Option CertFiles) (cs : List SetupCall) (k : M (List SetupCall) (Unit {0}))
      → ((t : State (List SetupCall)) → k t ≡ for_each cs (step F) t)
      → (s : State (List SetupCall))
      → (add_cert_watcher F w >> k) s ≡ for_each (for_watcher add_watcher w ++ cs) (step F) s
  unfolding add_cert_watcher ◌>>=◌
  added-follows none cs k h s = h s
  added-follows (some files) cs k h s = step-follows (add_watcher files) cs k h s

  -- The same for a call whose error is looked at afterwards.
  asked-follows :
      (c : SetupCall) (cs : List SetupCall) (k : M (List SetupCall) (Unit {0}))
      → ((t : State (List SetupCall)) → k t ≡ for_each cs (step F) t)
      → (s : State (List SetupCall))
      → (ask F c >>= λ e. or_exit F e >> k) s ≡ for_each (c ∷ cs) (step F) s
  unfolding for_each step ask or_exit ◌>>=◌
  asked-follows c cs k h s = let e = h (record s { object = c ∷ s.object }) in ground arith

  run_manager-follows :
      (webhook metrics : Option CertFiles) (s : State (List SetupCall))
      → run_manager F webhook metrics s ≡ for_each (manager_plan webhook metrics) (step F) s
  unfolding run_manager setup_cluster setup_machine
  run_manager-follows webhook metrics s =
      asked-follows (complete cluster_controller) _ _
        (asked-follows (complete machine_controller) _ _ (
          added-follows metrics _ _ (
            added-follows webhook _ _ (
              step-follows (add_healthz_check "healthz") _ _
                (step-follows (add_readyz_check "readyz") _ _ (last-follows start))))))
        s

  watcher-follows :
      (path : String) (files : CertFiles) (cs : List SetupCall)
      (f : Option CertFiles → M (List SetupCall) (Unit {0}))
      → ((t : State (List SetupCall)) → f (wanted path files) t ≡ for_each cs (step F) t)
      → (s : State (List SetupCall))
      → (watcher F path files >>= f) s
        ≡ for_each (for_watcher new_cert_watcher (wanted path files) ++ cs) (step F) s
  unfolding watcher step ask or_exit for_each ◌>>=◌
  watcher-follows path files cs f h s =
      let e = h s in
      let e' = h (record s { object = new_cert_watcher files ∷ s.object }) in ground arith

  -- `main` makes the calls of its plan in order, and ends the process with the first one that
  -- returns an error: the watchers for which there is a path, the manager with its options, the two
  -- controllers, the watchers again and the two checks as parts of the manager, and its start.
  pub main-follows :
      (flags : Flags) (s : State (List SetupCall))
      → main F flags s ≡ for_each (plan flags) (step F) s
  unfolding main
  main-follows flags s =
      watcher-follows flags.webhook_cert_path (webhook_files flags) _ _
        (watcher-follows flags.metrics_cert_path (metrics_files flags) _ _ (
          step-follows get_config _ _ (
            step-follows
              (new_manager (manager_options flags (webhook_watcher flags) (metrics_watcher flags)))
              _ _ (run_manager-follows (webhook_watcher flags) (metrics_watcher flags)))))
        s
