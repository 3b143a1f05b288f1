-- ===== src/Copy/Slots.antt =====
-- The cells of the memory, each with a variable of one of the types.
pub mod Objects
use cluster_api_provider_vmw.Base.{ℕ, String, Bool, ◌≡◌, refl, Option, none, some, List}
use cluster_api_provider_vmw.Api.Machine.{VdHardware, InitializationStatus, MachineAddress}
use cluster_api_provider_vmw.Api.Cluster.{VdClusterSpec, VdClusterStatus}
use cluster_api_provider_vmw.Copy.Structs.{
  StoredReference, StoredFolder, StoredAdapter, StoredRoute, StoredEthernet, StoredNetwork,
  StoredVnc, StoredMachineSpec, StoredMachineStatus, StoredMachine, StoredTemplateResource,
  StoredTemplateSpec, TemplateStatus, StoredTemplate, StoredCluster, StoredList,
}

pub data Cell : Type 0 where
  of_text : String → Cell
  of_flag : Bool → Cell
  of_number : ℕ → Cell
  of_texts : List String → Cell
  of_addresses : List MachineAddress → Cell
  of_reference : StoredReference → Cell
  of_folder : StoredFolder → Cell
  of_folders : List StoredFolder → Cell
  of_adapter : StoredAdapter → Cell
  of_adapters : List StoredAdapter → Cell
  of_route : StoredRoute → Cell
  of_routes : List StoredRoute → Cell
  of_ethernet : StoredEthernet → Cell
  of_ethernets : List StoredEthernet → Cell
  of_network : StoredNetwork → Cell
  of_vnc : StoredVnc → Cell
  of_hardware : VdHardware → Cell
  of_initialization : InitializationStatus → Cell
  of_machine_spec : StoredMachineSpec → Cell
  of_machine_status : StoredMachineStatus → Cell
  of_machine : StoredMachine → Cell
  of_machines : List StoredMachine → Cell
  of_machine_list : StoredList StoredMachine → Cell
  of_template_resource : StoredTemplateResource → Cell
  of_template_spec : StoredTemplateSpec → Cell
  of_template_status : TemplateStatus → Cell
  of_template : StoredTemplate → Cell
  of_templates : List StoredTemplate → Cell
  of_template_list : StoredList StoredTemplate → Cell
  of_cluster_spec : VdClusterSpec → Cell
  of_cluster_status : VdClusterStatus → Cell
  of_cluster : StoredCluster → Cell
  of_clusters : List StoredCluster → Cell
  of_cluster_list : StoredList StoredCluster → Cell

-- The cells that hold an `A`.
pub record Slot (A : Type 0) : Type 0 where
  pub pack : A → Cell
  pub unpack : Cell → Option A
  pub unpack-pack : (a : A) → unpack (pack a) ≡ some a

instance abbrev pub text_slot : Slot String
text_slot = record {
  pack = of_text;
  unpack = λ c. elim c [ of_text a ↦ some a | _ ↦ none ];
  unpack-pack = λ a. refl;
}

instance abbrev pub flag_slot : Slot Bool
flag_slot = record {
  pack = of_flag;
  unpack = λ c. elim c [ of_flag a ↦ some a | _ ↦ none ];
  unpack-pack = λ a. refl;
}

instance abbrev pub number_slot : Slot ℕ
number_slot = record {
  pack = of_number;
  unpack = λ c. elim c [ of_number a ↦ some a | _ ↦ none ];
  unpack-pack = λ a. refl;
}

instance abbrev pub texts_slot : Slot (List String)
texts_slot = record {
  pack = of_texts;
  unpack = λ c. elim c [ of_texts a ↦ some a | _ ↦ none ];
  unpack-pack = λ a. refl;
}

instance abbrev pub addresses_slot : Slot (List MachineAddress)
addresses_slot = record {
  pack = of_addresses;
  unpack = λ c. elim c [ of_addresses a ↦ some a | _ ↦ none ];
  unpack-pack = λ a. refl;
}

instance abbrev pub reference_slot : Slot StoredReference
reference_slot = record {
  pack = of_reference;
  unpack = λ c. elim c [ of_reference a ↦ some a | _ ↦ none ];
  unpack-pack = λ a. refl;
}

instance abbrev pub folder_slot : Slot StoredFolder
folder_slot = record {
  pack = of_folder;
  unpack = λ c. elim c [ of_folder a ↦ some a | _ ↦ none ];
  unpack-pack = λ a. refl;
}

instance abbrev pub folders_slot : Slot (List StoredFolder)
folders_slot = record {
  pack = of_folders;
  unpack = λ c. elim c [ of_folders a ↦ some a | _ ↦ none ];
  unpack-pack = λ a. refl;
}

instance abbrev pub adapter_slot : Slot StoredAdapter
adapter_slot = record {
  pack = of_adapter;
  unpack = λ c. elim c [ of_adapter a ↦ some a | _ ↦ none ];
  unpack-pack = λ a. refl;
}

instance abbrev pub adapters_slot : Slot (List StoredAdapter)
adapters_slot = record {
  pack = of_adapters;
  unpack = λ c. elim c [ of_adapters a ↦ some a | _ ↦ none ];
  unpack-pack = λ a. refl;
}

instance abbrev pub route_slot : Slot StoredRoute
route_slot = record {
  pack = of_route;
  unpack = λ c. elim c [ of_route a ↦ some a | _ ↦ none ];
  unpack-pack = λ a. refl;
}

instance abbrev pub routes_slot : Slot (List StoredRoute)
routes_slot = record {
  pack = of_routes;
  unpack = λ c. elim c [ of_routes a ↦ some a | _ ↦ none ];
  unpack-pack = λ a. refl;
}

instance abbrev pub ethernet_slot : Slot StoredEthernet
ethernet_slot = record {
  pack = of_ethernet;
  unpack = λ c. elim c [ of_ethernet a ↦ some a | _ ↦ none ];
  unpack-pack = λ a. refl;
}

instance abbrev pub ethernets_slot : Slot (List StoredEthernet)
ethernets_slot = record {
  pack = of_ethernets;
  unpack = λ c. elim c [ of_ethernets a ↦ some a | _ ↦ none ];
  unpack-pack = λ a. refl;
}

instance abbrev pub network_slot : Slot StoredNetwork
network_slot = record {
  pack = of_network;
  unpack = λ c. elim c [ of_network a ↦ some a | _ ↦ none ];
  unpack-pack = λ a. refl;
}

instance abbrev pub vnc_slot : Slot StoredVnc
vnc_slot = record {
  pack = of_vnc;
  unpack = λ c. elim c [ of_vnc a ↦ some a | _ ↦ none ];
  unpack-pack = λ a. refl;
}
