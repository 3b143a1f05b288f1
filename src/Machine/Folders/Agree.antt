-- ===== src/Machine/Folders/Agree.antt =====
-- What `sharedFoldersEqual` decides.
use cluster_api_provider_vmw.Base.{
  String, ◌≡◌, ◌↔◌, sym, refl, is_some, Option, none, some, List, [], ◌∷◌, eq_iff, arith, true,
  lookup, length,
}
use cluster_api_provider_vmw.Api.Machine.{VdSharedFolder}
use cluster_api_provider_vmw.Machine.Folders.Keys.{
  Unique, path_of, path_at, folder_map-Unique, lookup_equal_size, length_mono,
}
use cluster_api_provider_vmw.Machine.Folders.{
  FolderMap, folder_map, same_host_path, entries_agree, shared_folders_equal,
}

entries_agree_at :
    (status spec : FolderMap) (id : String) (sf : VdSharedFolder)
    → entries_agree status spec ≡ true
    → lookup id spec ≡ some sf
    → same_host_path (lookup id status) sf ≡ true
unfolding entries_agree lookup
entries_agree_at status [] id sf h e = ground arith
entries_agree_at status ((j, folder) ∷ spec) id sf h e =
    let rest = entries_agree_at status spec id sf in let same = eq_iff j id in grind arith

same_path :
    (o : Option VdSharedFolder) (sf : VdSharedFolder)
    → same_host_path o sf ≡ true
    → some sf.host_path ≡ path_of o
same_path none sf h = ground arith
same_path (some f) sf h = let e = eq_iff sf.host_path f.host_path in ground arith

by_lookup :
    (o p : Option VdSharedFolder)
    → ((sf : VdSharedFolder) → p ≡ some sf → same_host_path o sf ≡ true)
    → (is_some o ≡ true → is_some p ≡ true)
    → path_of p ≡ path_of o
by_lookup none none agree back = refl
by_lookup (some f) none agree back = ground (arith, back refl)
by_lookup o (some f) agree back = same_path o f (agree f refl)

-- The host paths agree at every id of the spec.
path_at-lookup :
    (id : String) (status spec : FolderMap)
    → Unique spec
    → entries_agree status spec ≡ true
    → length spec ≡ length status
    → path_at id spec ≡ path_at id status
path_at-lookup id status spec u h e =
    let back = lookup_equal_size status spec id u h e in
    let agree = entries_agree_at status spec id in
    by_lookup (lookup id status) (lookup id spec) (λ sf. agree sf h) back

path-same :
    (o : Option VdSharedFolder) (sf : VdSharedFolder)
    → some sf.host_path ≡ path_of o
    → same_host_path o sf ≡ true
path-same none sf h = ground arith
path-same (some f) sf h = let e = eq_iff sf.host_path f.host_path in ground arith

entries_agree_from :
    (status spec : FolderMap)
    → Unique spec
    → ((id : String) → is_some (lookup id spec) ≡ true → path_at id spec ≡ path_at id status)
    → entries_agree status spec ≡ true
unfolding entries_agree lookup
entries_agree_from status [] u h = refl
entries_agree_from status ((k, folder) ∷ spec) u h =
    let self = eq_iff k k in
    let here = h k (ground arith) in
    let head : same_host_path (lookup k status) folder ≡ true =
      path-same (lookup k status) folder (ground arith) in
    let rest =
      entries_agree_from status spec u.1
        (λ id e. let same = eq_iff k id in let there = h id in grind arith) in
    ground arith

path-is_some :
    (o p : Option VdSharedFolder) → path_of o ≡ path_of p → is_some o ≡ true → is_some p ≡ true
path-is_some o p h e = ground arith

to_agree :
    (spec status : List VdSharedFolder)
    → shared_folders_equal spec status ≡ true
    → (id : String) → path_at id (folder_map spec) ≡ path_at id (folder_map status)
unfolding shared_folders_equal
to_agree spec status h id =
    path_at-lookup id (folder_map status) (folder_map spec) (folder_map-Unique spec) (ground arith)
      (ground arith)

from_agree :
    (spec status : List VdSharedFolder)
    → ((id : String) → path_at id (folder_map spec) ≡ path_at id (folder_map status))
    → shared_folders_equal spec status ≡ true
unfolding shared_folders_equal
from_agree spec status h =
    let d = folder_map spec in
    let e = folder_map status in
    let le =
      length_mono e d (folder_map-Unique spec)
        (λ id. path-is_some (lookup id d) (lookup id e) (h id)) in
    let ge =
      length_mono d e (folder_map-Unique status)
        (λ id. path-is_some (lookup id e) (lookup id d) (sym (h id))) in
    let agree = entries_agree_from e d (folder_map-Unique spec) (λ id _. h id) in ground arith

-- The folders of the spec and of the status count as equal exactly if, for each id, the last folder
-- with that id has the same host path in both, or neither has one.
pub shared_folders_equal-agree :
    (spec status : List VdSharedFolder)
    → (shared_folders_equal spec status ≡ true)
      ↔ ((id : String) → path_at id (folder_map spec) ≡ path_at id (folder_map status))
shared_folders_equal-agree spec status = (to_agree spec status, from_agree spec status)
