-- ===== src/Machine/Folders.antt =====
-- `reconcileSharedFolders` and `sharedFoldersEqual`
pub mod Agree
pub mod Keys
pub mod Held
pub mod Converge
use cluster_api_provider_vmw.Base.{
  String, ◌<>◌, ◌==◌, Bool, true, false, ◌&&◌, Option, none, some, List, [], ◌∷◌, map, length,
  lookup, insert, keys, is_some, nat_eq, if◌then◌else◌,
}
use cluster_api_provider_vmw.Api.Machine.{VdMachine, VdSharedFolder, Int32}
use cluster_api_provider_vmw.Remote.{
  SharedFolder, get_all_shared_folders, create_shared_folder, delete_shared_folder, Env,
}
use cluster_api_provider_vmw.Program.{
  M, pure, get, history, modify, send, for_each, or_wrap, ◌>>=◌, ◌>>◌, Result, no_requeue, requeue,
  millisecond,
}
use cluster_api_provider_vmw.Machine.Fields.{set_shared_folders}

-- `specMap` and `statusMap`: the last folder with an id stays.
abbrev pub FolderMap : Type 0
FolderMap = List (String × VdSharedFolder)

unfoldable pub add_folders : FolderMap → List VdSharedFolder → FolderMap
add_folders d [] = d
add_folders d (sf ∷ folders) = add_folders (insert sf.folder_id sf d) folders

abbrev pub folder_map : List VdSharedFolder → FolderMap
folder_map = add_folders []

-- The test on one entry of `specMap`.
abbrev pub same_host_path : Option VdSharedFolder → VdSharedFolder → Bool
same_host_path none spec = false
same_host_path (some status) spec = spec.host_path == status.host_path

-- The loop over `specMap`: it returns false at any entry that fails, so the order is of no matter.
unfoldable pub entries_agree : FolderMap → FolderMap → Bool
entries_agree status [] = true
entries_agree status ((id, folder) ∷ spec) =
    same_host_path (lookup id status) folder && entries_agree status spec

unfoldable pub shared_folders_equal : List VdSharedFolder → List VdSharedFolder → Bool
unfolding entries_agree
shared_folders_equal spec status =
    nat_eq (length (folder_map spec)) (length (folder_map status))
    && entries_agree (folder_map status) (folder_map spec)

abbrev pub folder_of : SharedFolder → VdSharedFolder
folder_of sf = record { folder_id = sf.folder_id; host_path = sf.host_path; flags = some sf.flags }

-- `int32(4)` where the flags are nil
abbrev pub flags_of : Option Int32 → Int32
flags_of none = 4
flags_of (some flags) = flags

abbrev pub request_of : VdSharedFolder → SharedFolder
request_of sf = record {
  folder_id = sf.folder_id;
  host_path = sf.host_path;
  flags = flags_of sf.flags;
}

module _ (E : Env) (vm_id : String) where
  -- The body of the loop over `statusMap`. The text of the error is that of `%q` for an id with no
  -- character that it escapes.
  unfoldable pub delete_stale : FolderMap → String → M VdMachine (Unit {0})
  delete_stale spec id = if is_some (lookup id spec) then pure tt else (do
    reply ← send E (delete_shared_folder vm_id id)
    or_wrap ("failed to delete stale shared folder \"" <> id <> "\": ") reply)

  -- The body of the loop over the folders of the spec.
  unfoldable pub create_folder : VdSharedFolder → M VdMachine (Unit {0})
  create_folder sf = do
    reply ← send E (create_shared_folder vm_id (request_of sf))
    or_wrap ("failed to create shared folder \"" <> sf.folder_id <> "\": ") reply
    pure tt

  -- The two loops, for the folders of the spec and of the status.
  unfoldable pub apply_folders : List VdSharedFolder → List VdSharedFolder → M VdMachine (Unit {0})
  apply_folders spec status = do
    stale ← history (λ h. E.order String h (keys (folder_map status)))
    for_each stale (delete_stale (folder_map spec))
    for_each spec create_folder

  -- From `logger.Info("reconcile shared folders")` on.
  unfoldable pub refresh_folders : M VdMachine Result
  refresh_folders = do
    reply ← send E (get_all_shared_folders vm_id)
    folders ← or_wrap "failed to get VM shared folders: " reply
    let status = map folder_of folders
    modify (set_shared_folders status)
    m ← get
    if shared_folders_equal m.spec.shared_folders status
        then pure no_requeue
        else (apply_folders m.spec.shared_folders status >> pure (requeue millisecond))

  unfoldable pub reconcile_shared_folders : M VdMachine Result
  reconcile_shared_folders = do
    m ← get
    if shared_folders_equal m.spec.shared_folders m.status.shared_folders
        then pure no_requeue
        else refresh_folders
