-- ===== src/Machine/Folders/Keys.antt =====
-- Maps that have each key once, and what equal sizes say of them.
use cluster_api_provider_vmw.Base.{
  suc, ◌≤◌, String, ◌≡◌, refl, Option, none, some, is_some, List, [], ◌∷◌, ◌==◌, eq_iff, arith,
  true, false, lookup, insert, length,
}
use cluster_api_provider_vmw.Api.Machine.{VdSharedFolder}
use cluster_api_provider_vmw.Machine.Folders.{
  FolderMap, folder_map, add_folders, same_host_path, entries_agree,
}

-- Each key stands once in the map.
abbrev pub Unique : FolderMap → Type 0
Unique [] = Unit
Unique ((k, v) ∷ d) = (lookup k d ≡ none) × Unique d

lookup-insert_other :
    (j k : String) (v : VdSharedFolder) (d : FolderMap)
    → (k == j) ≡ false
    → lookup j (insert k v d) ≡ lookup j d
unfolding lookup insert
lookup-insert_other j k v [] e = ground arith
lookup-insert_other j k v ((i, w) ∷ d) e =
    let rest = lookup-insert_other j k v d e in
    let a = eq_iff i k in let b = eq_iff i j in let c = eq_iff k j in ground arith

insert-Unique : (k : String) (v : VdSharedFolder) (d : FolderMap) → Unique d → Unique (insert k v d)
unfolding lookup insert
insert-Unique k v [] h = (refl, tt)
insert-Unique k v ((i, w) ∷ d) h =
    let rest = insert-Unique k v d h.1 in
    let other = lookup-insert_other i k v d in
    let a = eq_iff i k in let b = eq_iff k i in ground arith

add_folders-Unique :
    (folders : List VdSharedFolder) (d : FolderMap) → Unique d → Unique (add_folders d folders)
unfolding add_folders
add_folders-Unique [] d h = h
add_folders-Unique (sf ∷ folders) d h =
    add_folders-Unique folders (insert sf.folder_id sf d) (insert-Unique sf.folder_id sf d h)

pub folder_map-Unique : (folders : List VdSharedFolder) → Unique (folder_map folders)
folder_map-Unique folders = add_folders-Unique folders [] tt

remove : String → FolderMap → FolderMap
remove k [] = []
remove k ((i, w) ∷ d) = elim (i == k) [ true ↦ d | false ↦ (i, w) ∷ remove k d ]

length-remove :
    (k : String) (d : FolderMap)
    → is_some (lookup k d) ≡ true
    → suc (length (remove k d)) ≡ length d
unfolding lookup remove
length-remove k [] h = ground arith
length-remove k ((i, w) ∷ d) h = let rest = length-remove k d in ground arith

lookup-remove_other :
    (j k : String) (d : FolderMap) → (k == j) ≡ false → lookup j (remove k d) ≡ lookup j d
unfolding lookup remove
lookup-remove_other j k [] e = refl
lookup-remove_other j k ((i, w) ∷ d) e =
    let rest = lookup-remove_other j k d e in
    let a = eq_iff i k in let b = eq_iff i j in let c = eq_iff k j in ground arith

entries_agree-remove :
    (k : String) (status spec : FolderMap)
    → lookup k spec ≡ none
    → entries_agree status spec ≡ true
    → entries_agree (remove k status) spec ≡ true
unfolding entries_agree lookup
entries_agree-remove k status [] e h = refl
entries_agree-remove k status ((i, folder) ∷ spec) e h =
    let other = lookup-remove_other i k status in
    let rest = entries_agree-remove k status spec in
    let a = eq_iff i k in let b = eq_iff k i in grind arith

agree-some :
    (o : Option VdSharedFolder) (folder : VdSharedFolder)
    → same_host_path o folder ≡ true
    → is_some o ≡ true
agree-some none folder h = ground arith
agree-some (some f) folder h = refl

-- Equally many keys, each of the one map in the other, are the same keys.
pub lookup_equal_size :
    (status spec : FolderMap) (id : String)
    → Unique spec
    → entries_agree status spec ≡ true
    → length spec ≡ length status
    → is_some (lookup id status) ≡ true
    → is_some (lookup id spec) ≡ true
unfolding entries_agree lookup
lookup_equal_size [] [] id u h e found_in = found_in
lookup_equal_size (x ∷ status) [] id u h e found_in = ground arith
lookup_equal_size status ((k, folder) ∷ spec) id u h e found_in =
    let present = agree-some (lookup k status) folder in
    let shrink = length-remove k status in
    let other = lookup-remove_other id k status in
    let agree = entries_agree-remove k status spec u.0 in
    let rest = lookup_equal_size (remove k status) spec id u.1 in grind arith

-- The host path under a key.
abbrev pub path_of : Option VdSharedFolder → Option String
path_of none = none
path_of (some sf) = some sf.host_path

abbrev pub path_at : String → FolderMap → Option String
path_at id d = path_of (lookup id d)

-- A map whose keys are all in another is no longer than that.
pub length_mono :
    (status spec : FolderMap)
    → Unique spec
    → ((id : String) → is_some (lookup id spec) ≡ true → is_some (lookup id status) ≡ true)
    → length spec ≤ length status
unfolding lookup
length_mono status [] u h = omega arith
length_mono status ((k, folder) ∷ spec) u h =
    let at_k : is_some (lookup k status) ≡ true = h k (let same = eq_iff k k in ground arith) in
    let shrink = length-remove k status at_k in
    let rest = length_mono (remove k status) spec u.1 (λ id e.
      let same = eq_iff k id in
      let other = lookup-remove_other id k status in let there = h id in grind arith) in
    omega (arith, shrink, rest)
