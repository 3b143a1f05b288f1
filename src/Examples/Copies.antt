-- ===== src/Examples/Copies.antt =====
-- A machine in a small memory.
use cluster_api_provider_vmw.Base.{ℕ, zero, suc, refl, false, Option, none, some, [], ◌∷◌, arith}
use cluster_api_provider_vmw.Api.Machine.{VdMachine}
use cluster_api_provider_vmw.Copy.Structs.{
  Ref, TypeMeta, StoredMeta, StoredReference, StoredFolder, StoredMachine,
}
use cluster_api_provider_vmw.Copy.Slots.{
  Cell, of_machine, of_text, of_number, of_folders, text_slot, number_slot, texts_slot,
  folders_slot,
}
use cluster_api_provider_vmw.Copy.Slots.Objects.{machine_slot}
use cluster_api_provider_vmw.Copy.Heap.{Heap, Cmd, pure, ◌>>=◌, each, copy_pointer}
use cluster_api_provider_vmw.Copy.Into.{
  Foreign, machine_deep_copy, machine_into, machine_spec_into, machine_status_into,
}
use cluster_api_provider_vmw.Copy.Values.{folder_into}
use cluster_api_provider_vmw.Copy.Objects.{
  Object, vd_machine, deep_copy_object, machine_deep_copy_object,
}
use cluster_api_provider_vmw.Copy.Shows.{Same, Rows, Points, Spans}
use cluster_api_provider_vmw.Copy.Shows.Structs.{ShowsMeta, ShowsReference, ShowsMachine}
use cluster_api_provider_vmw.Copy.Shows.Objects.{ShowsObject}
use cluster_api_provider_vmw.Copy.Rules.{
  IsCopy, Copied, Made-start, Copied-step, Copied-pure, pure-IsCopy,
}
use cluster_api_provider_vmw.Copy.Rules.Pointers.{pointer-IsCopy, list-IsCopy}
use cluster_api_provider_vmw.Copy.Apart.Network.{IsForeignCopy}
use cluster_api_provider_vmw.Copy.Apart.Whole.{
  write_all, deep_copy_object-copies, deep_copy_object-apart,
}
use cluster_api_provider_vmw.Examples.World.{fresh_machine, fresh_spec}

abbrev meta_into : StoredMeta → Cmd StoredMeta
meta_into m =
    copy_pointer pure m.finalizers >>= λ finalizers. pure (record m { finalizers = finalizers })

abbrev reference_into : StoredReference → Cmd StoredReference
reference_into m =
    copy_pointer pure m.api_group >>= λ api_group. pure (record m { api_group = api_group })

abbrev foreign : Foreign
foreign = record {
  meta_into = meta_into;
  resource_meta_into = meta_into;
  list_meta_into = pure;
  reference_into = reference_into;
  condition_into = pure;
}

meta_into-IsCopy : IsCopy ShowsMeta meta_into
meta_into-IsCopy = record {
  stable = λ h g m v e k. (k.0, k.1, k.2, list-IsCopy.stable h g m.finalizers v.finalizers e k.3);
  copies = λ h m v k.
      Copied-step list-IsCopy (Made-start h) m.finalizers v.finalizers k.3
        λ x g q. Copied-pure q (record m { finalizers = x }) λ l r. (k.0, k.1, k.2, r.1);
}

reference_into-IsCopy : IsCopy ShowsReference reference_into
reference_into-IsCopy = record {
  stable = λ h g m v e k.
      (k.0, k.1, (pointer-IsCopy Same _ pure-IsCopy).stable h g m.api_group v.api_group e k.2);
  copies = λ h m v k.
      Copied-step (pointer-IsCopy Same _ pure-IsCopy) (Made-start h) m.api_group v.api_group k.2
        λ x g q. Copied-pure q (record m { api_group = x }) λ l r. (k.0, k.1, r.1);
}

foreign-IsForeignCopy : IsForeignCopy foreign
foreign-IsForeignCopy = record {
  meta_copy = meta_into-IsCopy;
  resource_meta_copy = meta_into-IsCopy;
  list_meta_copy = pure-IsCopy;
  reference_copy = reference_into-IsCopy;
  condition_copy = pure-IsCopy;
}

abbrev stored_folder : StoredFolder
stored_folder = record { folder_id = "src"; host_path = "/src"; flags = some (record { at = 3 }) }

abbrev stored_machine : StoredMachine
stored_machine = record {
  type_meta = record { kind = "VDMachine"; api_version = "v1alpha1" };
  meta = record { name = "node"; namespace = "default"; deleted = false; finalizers = none };
  spec = record {
    provider_id = some (record { at = 1 });
    vm_id = none;
    template_id = "template";
    cpu = none;
    memory = none;
    network_config = none;
    network = none;
    shared_folders = some (record { at = 2 });
    vnc = none;
  };
  status = record {
    ready = false;
    addresses = none;
    conditions = none;
    initialization = record { provisioned = false; bootstrap_data_provided = false };
    hardware = record { cpu = 0; memory = 0 };
    state = none;
    network_adapters = none;
    shared_folders = none;
    vnc = none;
  };
}

abbrev cells : ℕ → Option Cell
cells zero = some (of_machine stored_machine)
cells (suc zero) = some (of_text "vmwaredesktop://A")
cells (suc (suc zero)) = some (of_folders (stored_folder ∷ []))
cells (suc (suc (suc zero))) = some (of_number 4)
cells _ = none

abbrev memory : Heap
memory = record { next = 4; cells = cells }

abbrev shown_machine : TypeMeta × VdMachine
shown_machine = (
  stored_machine.type_meta,
  record fresh_machine {
    spec = record fresh_spec {
      provider_id = some "vmwaredesktop://A";
      cpu = none;
      network = none;
      shared_folders = record { folder_id = "src"; host_path = "/src"; flags = some 4 } ∷ [];
    };
  },
)

abbrev root : Option (Ref StoredMachine)
root = some (record { at = 0 })

memory-Shows : Points ShowsMachine memory root (some shown_machine)
unfolding Points Spans Rows
memory-Shows = record {
  content = stored_machine;
  inside = omega arith;
  here = refl;
  shows = (
    refl,
    (refl, refl, refl, tt),
    (
      refl,
      record { content = _; inside = omega arith; here = refl; shows = refl },
      tt,
      tt,
      tt,
      tt,
      tt,
      record {
        content = stored_folder ∷ [];
        inside = omega arith;
        here = refl;
        shows = (
          (refl, refl, record { content = _; inside = omega arith; here = refl; shows = refl }),
          tt,
        );
      },
      tt,
    ),
    (refl, refl, refl, tt, tt, tt, tt, tt, tt),
  );
}

deep_copy_object-copies_example :
    Copied
      (ShowsObject vd_machine)
      (some shown_machine)
      memory
      (deep_copy_object foreign vd_machine root memory)
deep_copy_object-copies_example =
    deep_copy_object-copies foreign vd_machine memory root (some shown_machine)
      foreign-IsForeignCopy memory-Shows

-- The copy of the machine is at the address 4, its provider id at 5.
abbrev copied : Option (Option Object × Heap)
copied = deep_copy_object foreign vd_machine root memory

abbrev after : Heap
after = elim copied [ none ↦ memory | some r ↦ r.1 ]

abbrev copy : Option Object
copy = elim copied [ none ↦ none | some r ↦ r.0 ]

deep_copy_object-apart_example :
    ShowsObject vd_machine
      (write_all ((1, of_text "vmwaredesktop://B") ∷ []) after)
      copy
      (some shown_machine)
    × Points ShowsMachine
        (write_all ((5, of_text "vmwaredesktop://C") ∷ []) after)
        root
        (some shown_machine)
unfolding machine_deep_copy_object machine_deep_copy copy_pointer machine_into machine_spec_into
    each folder_into machine_status_into
deep_copy_object-apart_example =
    deep_copy_object-apart foreign vd_machine memory after root (some shown_machine) copy
      ((1, of_text "vmwaredesktop://B") ∷ []) ((5, of_text "vmwaredesktop://C") ∷ [])
      foreign-IsForeignCopy memory-Shows refl (omega arith, tt) (omega arith, tt)
