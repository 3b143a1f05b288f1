-- ===== src/Machine/Folders/Held.antt =====
-- What the service holds after the calls of `reconcileSharedFolders`.
use mathlib.Core.Path.{subst}
use cluster_api_provider_vmw.Base.{
  String, ◌==◌, eq_iff, ◌≡◌, refl, sym, ap, ◌∙◌, Bool, true, false, ◌⊎◌, Option, none, some,
  is_some, List, [], ◌∷◌, lookup, insert, arith, if◌then◌else◌,
}
use cluster_api_provider_vmw.Api.Machine.{VdMachine, VdSharedFolder}
use cluster_api_provider_vmw.Remote.{Call, create_shared_folder, delete_shared_folder, has, Env}
use cluster_api_provider_vmw.Program.{State, done, for_each, ◌>>=◌}
use cluster_api_provider_vmw.Program.Returns.{bind-Returned}
use cluster_api_provider_vmw.Machine.Folders.{FolderMap, add_folders, delete_stale, create_folder}
use cluster_api_provider_vmw.Machine.Folders.Keys.{path_at}

-- The host path under each id of a virtual machine.
abbrev pub Holding : Type 0
Holding = String → Option String

-- What a call changes.
abbrev pub effect : String → Call → Holding → Holding
effect vm_id (create_shared_folder vm sf) h =
    λ id. if vm == vm_id then (if sf.folder_id == id then some sf.host_path else h id) else h id
effect vm_id (delete_shared_folder vm folder) h =
    λ id. if vm == vm_id then (if folder == id then none else h id) else h id
effect vm_id _ h = h

-- What is held after the calls, the latest first, from what was held at first.
abbrev pub held : String → List Call → Holding → Holding
held vm_id [] h = h
held vm_id (c ∷ calls) h = effect vm_id c (held vm_id calls h)

-- The last folder with an id.
abbrev pub last_path : String → List VdSharedFolder → Option String
last_path id [] = none
last_path id (sf ∷ folders) = elim (last_path id folders) [
  | none ↦ if sf.folder_id == id then some sf.host_path else none
  | some p ↦ some p
]

abbrev pub or_else : Option String → Option String → Option String
or_else none q = q
or_else (some p) q = some p

path_at-insert :
    (id k : String) (v : VdSharedFolder) (d : FolderMap)
    → path_at id (insert k v d) ≡ (if k == id then some v.host_path else path_at id d)
unfolding lookup insert
path_at-insert id k v [] = ground arith
path_at-insert id k v ((j, w) ∷ d) =
    let rest = path_at-insert id k v d in
    let a = eq_iff j k in let b = eq_iff j id in let c = eq_iff k id in ground arith

pub path_at-add_folders :
    (id : String) (folders : List VdSharedFolder) (d : FolderMap)
    → path_at id (add_folders d folders) ≡ or_else (last_path id folders) (path_at id d)
unfolding add_folders
path_at-add_folders id [] d = refl
path_at-add_folders id (sf ∷ folders) d =
    let rest = path_at-add_folders id folders (insert sf.folder_id sf d) in
    let here = path_at-insert id sf.folder_id sf d in ground arith

module _ (E : Env) (vm_id : String) (first : Holding) (id : String) where
  delete_stale_done :
      (spec : FolderMap) (k : String) (s : State VdMachine)
      → (delete_stale E vm_id spec k s).0 ≡ done tt
      → held vm_id (delete_stale E vm_id spec k s).1.calls first id ≡ (
          if is_some (lookup k spec)
          then held vm_id s.calls first id
          else if k == id
          then none
          else held vm_id s.calls first id)
  unfolding delete_stale ◌>>=◌
  delete_stale_done spec k s h = let e = eq_iff vm_id vm_id in ground arith

  create_folder_done :
      (sf : VdSharedFolder) (s : State VdMachine)
      → (create_folder E vm_id sf s).0 ≡ done tt
      → held vm_id (create_folder E vm_id sf s).1.calls first id
        ≡ (if sf.folder_id == id then some sf.host_path else held vm_id s.calls first id)
  unfolding create_folder ◌>>=◌
  create_folder_done sf s h = let e = eq_iff vm_id vm_id in ground arith

  -- A key that the spec lacks is another one, or is deleted here.
  kept :
      (k : String) (spec : FolderMap)
      → is_some (lookup id spec) ≡ false
      → (k == id) ≡ true
      → is_some (lookup k spec) ≡ false
  kept k spec absent e =
      let same = eq_iff k id in
      subst (λ x. is_some (lookup x spec) ≡ false) (sym (ground arith)) absent

  next :
      (k : String) (ids : List String) (old new : Option String) (spared : Bool)
      → ((k == id) ≡ true → spared ≡ false)
      → new ≡ (if spared then old else if k == id then none else old)
      → (old ≡ none) ⊎ (has id (k ∷ ids) ≡ true)
      → (new ≡ none) ⊎ (has id ids ≡ true)
  next k ids old new spared own e why = ground arith

  shift :
      (o : Option String) (sf : VdSharedFolder) (old : Option String)
      → or_else o (if sf.folder_id == id then some sf.host_path else old)
        ≡ or_else
            (elim o [
              | none ↦ if sf.folder_id == id then some sf.host_path else none
              | some p ↦ some p
            ])
            old
  shift o sf old = ground arith

  pub deletes_done :
      (spec : FolderMap) (ids : List String) (s : State VdMachine)
      → (for_each ids (delete_stale E vm_id spec) s).0 ≡ done tt
      → is_some (lookup id spec) ≡ false
      → (held vm_id s.calls first id ≡ none) ⊎ (has id ids ≡ true)
      → held vm_id (for_each ids (delete_stale E vm_id spec) s).1.calls first id ≡ none
  unfolding for_each ◌>>=◌
  deletes_done spec [] s h absent why = ground arith
  deletes_done spec (k ∷ ids) s h absent why =
      let r =
        bind-Returned (delete_stale E vm_id spec k) (λ _. for_each ids (delete_stale E vm_id spec))
          s tt h in
      let t : State VdMachine = (delete_stale E vm_id spec k s).1 in
      let here = delete_stale_done spec k s r.first in
      ap (λ q. held vm_id q.1.calls first id) r.same
      ∙ deletes_done spec ids t r.rest absent (
          next k ids (held vm_id s.calls first id) (held vm_id t.calls first id)
            (is_some (lookup k spec)) (kept k spec absent) here why)

  pub creates_done :
      (spec : List VdSharedFolder) (s : State VdMachine)
      → (for_each spec (create_folder E vm_id) s).0 ≡ done tt
      → held vm_id (for_each spec (create_folder E vm_id) s).1.calls first id
        ≡ or_else (last_path id spec) (held vm_id s.calls first id)
  unfolding for_each ◌>>=◌
  creates_done [] s h = ground arith
  creates_done (sf ∷ spec) s h =
      let r =
        bind-Returned (create_folder E vm_id sf) (λ _. for_each spec (create_folder E vm_id)) s tt
          h in
      let t : State VdMachine = (create_folder E vm_id sf s).1 in
      let here = create_folder_done sf s r.first in
      ap (λ q. held vm_id q.1.calls first id) r.same
      ∙ (creates_done spec t r.rest
          ∙ (ap (or_else (last_path id spec)) here
              ∙ shift (last_path id spec) sf (held vm_id s.calls first id)))
