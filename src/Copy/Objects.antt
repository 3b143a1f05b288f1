-- ===== src/Copy/Objects.antt =====
-- The lists of objects, and `DeepCopyObject`.
use cluster_api_provider_vmw.Base.{Option, none, some}
use cluster_api_provider_vmw.Copy.Structs.{
  Ref, Pointer, StoredMachine, StoredTemplate, StoredCluster, StoredList,
}
use cluster_api_provider_vmw.Copy.Slots.{
  text_slot, flag_slot, number_slot, texts_slot, addresses_slot, reference_slot, folder_slot,
  folders_slot, adapter_slot, adapters_slot, route_slot, routes_slot, ethernet_slot, ethernets_slot,
  network_slot, vnc_slot,
}
use cluster_api_provider_vmw.Copy.Slots.Objects.{
  hardware_slot, initialization_slot, machine_spec_slot, machine_status_slot, machine_slot,
  machines_slot, machine_list_slot, template_resource_slot, template_spec_slot,
  template_status_slot, template_slot, templates_slot, template_list_slot, cluster_spec_slot,
  cluster_status_slot, cluster_slot, clusters_slot, cluster_list_slot,
}
use cluster_api_provider_vmw.Copy.Heap.{Cmd, pure, ◌>>=◌, copy_pointer, each}
use cluster_api_provider_vmw.Copy.Into.{
  Foreign, machine_into, template_into, cluster_into, machine_deep_copy, template_deep_copy,
  cluster_deep_copy,
}

module _ (F : Foreign) where
  unfoldable pub machine_list_into : (StoredList StoredMachine) → Cmd (StoredList StoredMachine)
  machine_list_into m = do
    meta ← F.list_meta_into m.meta
    items ← copy_pointer (each (machine_into F)) m.items
    pure (record m { meta = meta; items = items })

  unfoldable pub machine_list_deep_copy :
      Pointer (StoredList StoredMachine) → Cmd (Pointer (StoredList StoredMachine))
  machine_list_deep_copy = copy_pointer machine_list_into

  unfoldable pub template_list_into : (StoredList StoredTemplate) → Cmd (StoredList StoredTemplate)
  template_list_into m = do
    meta ← F.list_meta_into m.meta
    items ← copy_pointer (each (template_into F)) m.items
    pure (record m { meta = meta; items = items })

  unfoldable pub template_list_deep_copy :
      Pointer (StoredList StoredTemplate) → Cmd (Pointer (StoredList StoredTemplate))
  template_list_deep_copy = copy_pointer template_list_into

  unfoldable pub cluster_list_into : (StoredList StoredCluster) → Cmd (StoredList StoredCluster)
  cluster_list_into m = do
    meta ← F.list_meta_into m.meta
    items ← copy_pointer (each (cluster_into F)) m.items
    pure (record m { meta = meta; items = items })

  unfoldable pub cluster_list_deep_copy :
      Pointer (StoredList StoredCluster) → Cmd (Pointer (StoredList StoredCluster))
  cluster_list_deep_copy = copy_pointer cluster_list_into

-- The types whose pointers are a `runtime.Object`.
pub data Kind : Type 0 where
  vd_machine : Kind
  vd_machine_list : Kind
  vd_machine_template : Kind
  vd_machine_template_list : Kind
  vd_cluster : Kind
  vd_cluster_list : Kind

abbrev pub Stored : Kind → Type 0
Stored vd_machine = StoredMachine
Stored vd_machine_list = StoredList StoredMachine
Stored vd_machine_template = StoredTemplate
Stored vd_machine_template_list = StoredList StoredTemplate
Stored vd_cluster = StoredCluster
Stored vd_cluster_list = StoredList StoredCluster

-- A `runtime.Object` that is not nil and has a pointer that is not nil.
pub record Object : Type 0 where
  pub kind : Kind
  pub pointer : Ref (Stored kind)

-- `if c := in.DeepCopy(); c != nil { return c }; return nil`, from the test on.
abbrev pub as_object : (k : Kind) → Pointer (Stored k) → Cmd (Option Object)
as_object k none = pure none
as_object k (some p) = pure (some (record { kind = k; pointer = p }))

module _ (F : Foreign) where
  unfoldable pub machine_deep_copy_object : Pointer StoredMachine → Cmd (Option Object)
  machine_deep_copy_object p = machine_deep_copy F p >>= as_object vd_machine

  unfoldable pub machine_list_deep_copy_object :
      Pointer (StoredList StoredMachine) → Cmd (Option Object)
  machine_list_deep_copy_object p = machine_list_deep_copy F p >>= as_object vd_machine_list

  unfoldable pub template_deep_copy_object : Pointer StoredTemplate → Cmd (Option Object)
  template_deep_copy_object p = template_deep_copy F p >>= as_object vd_machine_template

  unfoldable pub template_list_deep_copy_object :
      Pointer (StoredList StoredTemplate) → Cmd (Option Object)
  template_list_deep_copy_object p =
      template_list_deep_copy F p >>= as_object vd_machine_template_list

  unfoldable pub cluster_deep_copy_object : Pointer StoredCluster → Cmd (Option Object)
  cluster_deep_copy_object p = cluster_deep_copy F p >>= as_object vd_cluster

  unfoldable pub cluster_list_deep_copy_object :
      Pointer (StoredList StoredCluster) → Cmd (Option Object)
  cluster_list_deep_copy_object p = cluster_list_deep_copy F p >>= as_object vd_cluster_list

  -- The method of the interface.
  abbrev pub deep_copy_object : (k : Kind) → Pointer (Stored k) → Cmd (Option Object)
  deep_copy_object vd_machine = machine_deep_copy_object
  deep_copy_object vd_machine_list = machine_list_deep_copy_object
  deep_copy_object vd_machine_template = template_deep_copy_object
  deep_copy_object vd_machine_template_list = template_list_deep_copy_object
  deep_copy_object vd_cluster = cluster_deep_copy_object
  deep_copy_object vd_cluster_list = cluster_list_deep_copy_object
