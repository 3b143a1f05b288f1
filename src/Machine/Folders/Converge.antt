-- ===== src/Machine/Folders/Converge.antt =====
-- The service comes to hold the folders of the spec.
use mathlib.Core.Logic.{∥∥₁_elim}
use mathlib.Core.List.{Mem, not-mem-nil, mem-cons_self, mem-cons_of_mem, eq-or-mem_of_mem-cons}
use mathlib.Core.List.{Perm}
use mathlib.Core.List.Perm.{mem_iff}
use mathlib.Core.Path.{subst}
use mathlib.Core.Bool.{Bool-set}
use cluster_api_provider_vmw.Base.{
  String, ◌==◌, eq_iff, ◌≡◌, refl, sym, ap, ◌∙◌, Bool, true, false, ◌⊎◌, inl, inr, Bool-cases,
  Option, none, some, is_some, List, [], ◌∷◌, lookup, keys, map, arith, if◌then◌else◌,
}
use cluster_api_provider_vmw.Api.Machine.{VdMachine, VdSharedFolder}
use cluster_api_provider_vmw.Remote.{
  SharedFolder, get_all_shared_folders, success, has, Env, IsLawful,
}
use cluster_api_provider_vmw.Program.{
  State, M, Result, done, pure, no_requeue, requeue, millisecond, for_each, ◌>>=◌, ◌>>◌,
}
use cluster_api_provider_vmw.Program.Returns.{bind-Returned}
use cluster_api_provider_vmw.Machine.Fields.{set_shared_folders}
use cluster_api_provider_vmw.Machine.Folders.{
  FolderMap, folder_map, folder_of, shared_folders_equal, delete_stale, create_folder,
  apply_folders, refresh_folders,
}
use cluster_api_provider_vmw.Machine.Folders.Keys.{path_at}
use cluster_api_provider_vmw.Machine.Folders.Agree.{shared_folders_equal-agree}
use cluster_api_provider_vmw.Machine.Folders.Held.{
  Holding, held, last_path, or_else, path_at-add_folders, deletes_done, creates_done,
}

has-Mem : (id : String) (ids : List String) → Mem id ids → has id ids ≡ true
has-Mem id [] h = absurd (not-mem-nil h)
has-Mem id (k ∷ ids) h = ∥∥₁_elim (eq-or-mem_of_mem-cons h) (Bool-set _ _) λ p. elim p [
  | inl e ↦ let same = eq_iff k id in ground arith
  | inr there ↦ let rest = has-Mem id ids there in ground arith
]

Mem-has : (id : String) (ids : List String) → has id ids ≡ true → Mem id ids
Mem-has id [] h = ground arith
Mem-has id (k ∷ ids) h = elim (Bool-cases (k == id)) [
  | inl e ↦ subst (λ x. Mem x (k ∷ ids)) (let same = eq_iff k id in ground arith) mem-cons_self
  | inr e ↦ mem-cons_of_mem _ (Mem-has id ids (ground arith))
]

keys_lem : (id : String) (d : FolderMap) → (path_at id d ≡ none) ⊎ (has id (keys d) ≡ true)
unfolding lookup keys
keys_lem id [] = inl refl
keys_lem id ((k, sf) ∷ d) = let rest = keys_lem id d in ground arith

absent_lem : (id : String) (d : FolderMap) → path_at id d ≡ none → is_some (lookup id d) ≡ false
absent_lem id d e = ground arith

module _ (E : Env) (vm_id : String) (first : Holding) (id : String) where
  stale_lem :
      (status : FolderMap) (ids : List String) (old : Option String)
      → Perm ids (keys status)
      → old ≡ path_at id status
      → (old ≡ none) ⊎ (has id ids ≡ true)
  stale_lem status ids old p e = elim (keys_lem id status) [
    | inl gone ↦ inl (e ∙ gone)
    | inr there ↦ inr (has-Mem id ids ((mem_iff p).1 (Mem-has id (keys status) there)))
  ]

  last_step :
      (o now target : Option String)
      → target ≡ or_else o none
      → (target ≡ none → now ≡ none)
      → or_else o now ≡ target
  last_step none now target e gone = gone e ∙ sym e
  last_step (some p) now target e gone = sym e

  -- After the two loops.
  loops_done :
      (spec : List VdSharedFolder) (ids : List String) (s : State VdMachine)
      → ((for_each ids (delete_stale E vm_id (folder_map spec))
            >> for_each spec (create_folder E vm_id))
          s).0
        ≡ done tt
      → (held vm_id s.calls first id ≡ none) ⊎ (has id ids ≡ true)
      → held vm_id
          ((for_each ids (delete_stale E vm_id (folder_map spec))
              >> for_each spec (create_folder E vm_id))
            s).1.calls
          first
          id
        ≡ path_at id (folder_map spec)
  unfolding lookup
  loops_done spec ids s h why =
      let r = bind-Returned (for_each ids (delete_stale E vm_id (folder_map spec))) _ s tt h in
      let t : State VdMachine = (for_each ids (delete_stale E vm_id (folder_map spec)) s).1 in
      let made = creates_done E vm_id first id spec t r.rest in
      let gone = deletes_done E vm_id first id (folder_map spec) ids s r.first in
      let named = path_at-add_folders id spec [] in
      ap (λ q. held vm_id q.1.calls first id) r.same
      ∙ (made
          ∙ last_step (last_path id spec) (held vm_id t.calls first id)
              (path_at id (folder_map spec)) named
              (λ e. gone (absent_lem id (folder_map spec) e) why))

  apply_done :
      (spec status : List VdSharedFolder) (s : State VdMachine)
      → IsLawful E
      → held vm_id s.calls first id ≡ path_at id (folder_map status)
      → (apply_folders E vm_id spec status s).0 ≡ done tt
      → held vm_id (apply_folders E vm_id spec status s).1.calls first id
        ≡ path_at id (folder_map spec)
  unfolding apply_folders ◌>>=◌
  apply_done spec status s lawful e h =
      let ids = E.order String s.calls (keys (folder_map status)) in
      loops_done spec ids s h (
        stale_lem (folder_map status) ids (held vm_id s.calls first id)
          (lawful.order-perm String s.calls (keys (folder_map status))) e)

  -- What follows the comparison of the folders.
  abbrev chosen : Bool → List VdSharedFolder → List VdSharedFolder → M VdMachine Result
  chosen b spec status =
      if b
      then pure no_requeue
      else (apply_folders E vm_id spec status >> pure (requeue millisecond))

  chosen_done :
      (b : Bool) (spec status : List VdSharedFolder) (result : Result) (s : State VdMachine)
      → IsLawful E
      → held vm_id s.calls first id ≡ path_at id (folder_map status)
      → (b ≡ true → path_at id (folder_map spec) ≡ path_at id (folder_map status))
      → (chosen b spec status s).0 ≡ done result
      → held vm_id (chosen b spec status s).1.calls first id ≡ path_at id (folder_map spec)
  unfolding ◌>>=◌
  chosen_done true spec status result s lawful e same h = e ∙ sym (same refl)
  chosen_done false spec status result s lawful e same h =
      let r =
        bind-Returned (apply_folders E vm_id spec status) (λ _. pure (requeue millisecond)) s result
          h in
      ap (λ q. held vm_id q.1.calls first id) r.same ∙ apply_done spec status s lawful e r.first

module _ (E : Env) (vm_id : String) where
  refresh_told :
      (folders : List SharedFolder) (s : State VdMachine)
      → E.answer s.calls (get_all_shared_folders vm_id) ≡ success folders
      → refresh_folders E vm_id s ≡ (
          let status = map folder_of folders in
          let spec = s.object.spec.shared_folders in
          (if shared_folders_equal spec status
              then pure no_requeue
              else (apply_folders E vm_id spec status >> pure (requeue millisecond)))
            (record {
              object = set_shared_folders status s.object;
              calls = get_all_shared_folders vm_id ∷ s.calls;
            }))
  unfolding refresh_folders ◌>>=◌
  refresh_told folders s told = rw told refl

-- If the service answers the question for the shared folders with those that it holds for the virtual machine,
-- and every later call of the step succeeds, so that it returns, then the service holds afterwards
-- under each id the host path of the last folder of the spec with that id, and nothing under the
-- other ids. A walk over a map is taken to meet each entry once.
pub refresh_folders-converge :
    (E : Env) (vm_id : String) (first : Holding) (folders : List SharedFolder) (result : Result)
    (s : State VdMachine)
    → IsLawful E
    → E.answer s.calls (get_all_shared_folders vm_id) ≡ success folders
    → ((id : String)
        → held vm_id s.calls first id ≡ path_at id (folder_map (map folder_of folders)))
    → (refresh_folders E vm_id s).0 ≡ done result
    → (id : String)
    → held vm_id (refresh_folders E vm_id s).1.calls first id
      ≡ path_at id (folder_map s.object.spec.shared_folders)
refresh_folders-converge E vm_id first folders result s lawful told same h id =
    let status = map folder_of folders in
    let spec = s.object.spec.shared_folders in
    let u : State VdMachine = record {
      object = set_shared_folders status s.object;
      calls = get_all_shared_folders vm_id ∷ s.calls;
    } in
    let e = refresh_told E vm_id folders s told in
    ap (λ q. held vm_id q.1.calls first id) e
    ∙ chosen_done E vm_id first id (shared_folders_equal spec status) spec status result u lawful
        (same id) (λ equal. (shared_folders_equal-agree spec status).0 equal id)
        (sym (ap (λ q. q.0) e) ∙ h)
