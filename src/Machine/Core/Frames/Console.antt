-- ===== src/Machine/Core/Frames/Console.antt =====
-- `reconcileSharedFolders` and `reconcileVnc`
use cluster_api_provider_vmw.Base.{
  ℕ, zero, suc, String, ◌==◌, ◌<>◌, Option, none, some, List, [], ◌∷◌, arith, refl, map,
}
use cluster_api_provider_vmw.Text.{nth, append_char}
use cluster_api_provider_vmw.Api.Machine.{VdSharedFolder, Vnc}
use cluster_api_provider_vmw.Remote.{Env, rand_intn, get_all_shared_folders}
use cluster_api_provider_vmw.Program.{◌>>=◌}
use cluster_api_provider_vmw.Program.Keeps.{
  Keeps-pure, Keeps-bind, Keeps-deref, Keeps-or_wrap, Keeps-option, Keeps-if, Keeps-get,
  Keeps-history, Keeps-for_each,
}
use cluster_api_provider_vmw.Machine.Core.{Frame, send-Frame, modify-Frame}
use cluster_api_provider_vmw.Machine.Folders.{
  folder_of, shared_folders_equal, FolderMap, folder_map, delete_stale, create_folder,
  apply_folders, refresh_folders, reconcile_shared_folders,
}
use cluster_api_provider_vmw.Machine.Vnc.{
  charset, charset_len, password_len, generates, generate_from, generate_password, generate_port,
  ask, read_param, update_vnc_status, choose_port, choose_password, send_vnc, configure_vnc,
  needs_vnc, compare_vnc, reconcile_vnc, key_prefixes,
}

module _ (E : Env) (vm_id : String) where
  delete_stale-Frame : (d : FolderMap) (id : String) → Frame (delete_stale E vm_id d id)
  unfolding delete_stale ◌>>=◌
  delete_stale-Frame d id c = record { at = λ s h. ground arith }

  create_folder-Frame : (sf : VdSharedFolder) → Frame (create_folder E vm_id sf)
  unfolding create_folder ◌>>=◌
  create_folder-Frame sf c = record { at = λ s h. ground arith }

  apply_folders-Frame :
      (spec status : List VdSharedFolder) → Frame (apply_folders E vm_id spec status)
  unfolding apply_folders
  apply_folders-Frame spec status c = Keeps-history _ _ λ stale.
      Keeps-bind _ _ (Keeps-for_each _ stale (λ id. delete_stale-Frame (folder_map spec) id c))
        (λ _. Keeps-for_each _ spec (λ sf. create_folder-Frame sf c))

  refresh_folders-Frame : Frame (refresh_folders E vm_id)
  unfolding refresh_folders
  refresh_folders-Frame c =
      Keeps-bind _ _ (send-Frame E (get_all_shared_folders vm_id) refl c) λ reply.
        Keeps-bind _ _ (Keeps-or_wrap _ reply) λ folders.
          Keeps-bind _ _ (modify-Frame _ (λ s. refl) c) λ _. Keeps-get _ λ m.
            Keeps-if (shared_folders_equal m.spec.shared_folders (map folder_of folders)) _ _
              (Keeps-pure _)
              (Keeps-bind _ _ (apply_folders-Frame m.spec.shared_folders (map folder_of folders) c)
                (λ _. Keeps-pure _))

  pub reconcile_shared_folders-Frame : Frame (reconcile_shared_folders E vm_id)
  unfolding reconcile_shared_folders
  reconcile_shared_folders-Frame c = Keeps-get _ λ m.
      Keeps-if (shared_folders_equal m.spec.shared_folders m.status.shared_folders) _ _
        (Keeps-pure _) (refresh_folders-Frame c)

  ask-Frame : (vnc_key : String) → Frame (ask E vm_id vnc_key)
  unfolding ask ◌>>=◌
  ask-Frame vnc_key c = record { at = λ s h. ground arith }

  read_param-Frame :
      (key : String) (prefixes : List String) (value : String)
      → Frame (read_param E vm_id key prefixes value)
  unfolding read_param
  read_param-Frame key [] value c = Keeps-pure _
  read_param-Frame key (prefix ∷ prefixes) value c =
      Keeps-bind _ _ (ask-Frame (prefix <> ".vnc." <> key) c) λ answer.
        Keeps-bind _ _ (Keeps-deref answer)
          λ v. Keeps-if (v == "") _ _ (read_param-Frame key prefixes v c) (Keeps-pure _)

  update_vnc_status-Frame : Frame (update_vnc_status E vm_id)
  unfolding update_vnc_status
  update_vnc_status-Frame c = Keeps-bind _ _ (read_param-Frame "enabled" key_prefixes "" c) λ _.
      Keeps-bind _ _ (read_param-Frame "port" key_prefixes "" c) λ _.
        Keeps-bind _ _ (read_param-Frame "password" key_prefixes "" c)
          λ _. modify-Frame _ (λ s. refl) c

  send_vnc-Frame : (p : String × String) → Frame (send_vnc E vm_id p)
  unfolding send_vnc ◌>>=◌
  send_vnc-Frame p c = record { at = λ s h. ground arith }

module _ (E : Env) where
  generate_from-Frame : (rounds : ℕ) (password : String) → Frame (generate_from E rounds password)
  unfolding generate_from
  generate_from-Frame zero password c = Keeps-pure _
  generate_from-Frame (suc rounds) password c =
      Keeps-bind _ _ (send-Frame E (rand_intn charset_len) refl c) λ n.
        Keeps-bind _ _ (Keeps-deref (nth charset n))
          λ ch. generate_from-Frame rounds (append_char password ch) c

  choose_port-Frame : (spec : Vnc) → Frame (choose_port E spec)
  unfolding choose_port generate_port ◌>>=◌
  choose_port-Frame spec c = record { at = λ s h. ground arith }

  choose_password-Frame : (spec : Vnc) → Frame (choose_password E spec)
  unfolding choose_password generate_password
  choose_password-Frame spec c =
      Keeps-if (generates spec.password spec.generate_password) _ _
        (Keeps-bind _ _ (generate_from-Frame password_len "" c)
          λ password. Keeps-bind _ _ (modify-Frame _ (λ s. refl) c) λ _. Keeps-pure _)
        (Keeps-pure _)

  needs_vnc-Frame : (spec status : Vnc) → Frame (needs_vnc spec status)
  unfolding needs_vnc ◌>>=◌
  needs_vnc-Frame spec status c = record { at = λ s h. ground arith }

  configure_vnc-Frame : (vm_id : String) (spec : Vnc) → Frame (configure_vnc E vm_id spec)
  unfolding configure_vnc
  configure_vnc-Frame vm_id spec c = Keeps-bind _ _ (choose_port-Frame spec c) λ spec'.
      Keeps-bind _ _ (choose_password-Frame spec' c) λ spec''. Keeps-history _ _ λ params.
        Keeps-bind _ _ (Keeps-for_each _ params (λ p. send_vnc-Frame E vm_id p c))
          λ _. Keeps-bind _ _ (update_vnc_status-Frame E vm_id c) λ _. Keeps-pure _

  compare_vnc-Frame :
      (vm_id : String) (status : Vnc) (spec : Option Vnc) → Frame (compare_vnc E vm_id status spec)
  unfolding compare_vnc
  compare_vnc-Frame vm_id status none c = Keeps-pure _
  compare_vnc-Frame vm_id status (some spec) c =
      Keeps-bind _ _ (needs_vnc-Frame spec status c)
        λ needed. Keeps-if needed _ _ (configure_vnc-Frame vm_id spec c) (Keeps-pure _)

  pub reconcile_vnc-Frame : (vm_id : String) → Frame (reconcile_vnc E vm_id)
  unfolding reconcile_vnc
  reconcile_vnc-Frame vm_id c = Keeps-get _ λ m.
      Keeps-option m.status.vnc _ _
        (Keeps-bind _ _ (update_vnc_status-Frame E vm_id c) (λ _. Keeps-pure _))
        (λ status. compare_vnc-Frame vm_id status m.spec.vnc c)
