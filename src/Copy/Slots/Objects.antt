-- ===== src/Copy/Slots/Objects.antt =====
-- The cells of the hardware, of the specifications and statuses, and of the objects and their lists.
use cluster_api_provider_vmw.Base.{refl, none, some, List}
use cluster_api_provider_vmw.Api.Machine.{VdHardware, InitializationStatus}
use cluster_api_provider_vmw.Api.Cluster.{VdClusterSpec, VdClusterStatus}
use cluster_api_provider_vmw.Copy.Structs.{
  StoredMachineSpec, StoredMachineStatus, StoredMachine, StoredTemplateResource, StoredTemplateSpec,
  TemplateStatus, StoredTemplate, StoredCluster, StoredList,
}
use cluster_api_provider_vmw.Copy.Slots.{
  Slot, of_hardware, of_initialization, of_machine_spec, of_machine_status, of_machine, of_machines,
  of_machine_list, of_template_resource, of_template_spec, of_template_status, of_template,
  of_templates, of_template_list, of_cluster_spec, of_cluster_status, of_cluster, of_clusters,
  of_cluster_list,
}

instance abbrev pub hardware_slot : Slot VdHardware
hardware_slot = record {
  pack = of_hardware;
  unpack = λ c. elim c [ of_hardware a ↦ some a | _ ↦ none ];
  unpack-pack = λ a. refl;
}

instance abbrev pub initialization_slot : Slot InitializationStatus
initialization_slot = record {
  pack = of_initialization;
  unpack = λ c. elim c [ of_initialization a ↦ some a | _ ↦ none ];
  unpack-pack = λ a. refl;
}

instance abbrev pub machine_spec_slot : Slot StoredMachineSpec
machine_spec_slot = record {
  pack = of_machine_spec;
  unpack = λ c. elim c [ of_machine_spec a ↦ some a | _ ↦ none ];
  unpack-pack = λ a. refl;
}

instance abbrev pub machine_status_slot : Slot StoredMachineStatus
machine_status_slot = record {
  pack = of_machine_status;
  unpack = λ c. elim c [ of_machine_status a ↦ some a | _ ↦ none ];
  unpack-pack = λ a. refl;
}

instance abbrev pub machine_slot : Slot StoredMachine
machine_slot = record {
  pack = of_machine;
  unpack = λ c. elim c [ of_machine a ↦ some a | _ ↦ none ];
  unpack-pack = λ a. refl;
}

instance abbrev pub machines_slot : Slot (List StoredMachine)
machines_slot = record {
  pack = of_machines;
  unpack = λ c. elim c [ of_machines a ↦ some a | _ ↦ none ];
  unpack-pack = λ a. refl;
}

instance abbrev pub machine_list_slot : Slot (StoredList StoredMachine)
machine_list_slot = record {
  pack = of_machine_list;
  unpack = λ c. elim c [ of_machine_list a ↦ some a | _ ↦ none ];
  unpack-pack = λ a. refl;
}

instance abbrev pub template_resource_slot : Slot StoredTemplateResource
template_resource_slot = record {
  pack = of_template_resource;
  unpack = λ c. elim c [ of_template_resource a ↦ some a | _ ↦ none ];
  unpack-pack = λ a. refl;
}

instance abbrev pub template_spec_slot : Slot StoredTemplateSpec
template_spec_slot = record {
  pack = of_template_spec;
  unpack = λ c. elim c [ of_template_spec a ↦ some a | _ ↦ none ];
  unpack-pack = λ a. refl;
}

instance abbrev pub template_status_slot : Slot TemplateStatus
template_status_slot = record {
  pack = of_template_status;
  unpack = λ c. elim c [ of_template_status a ↦ some a | _ ↦ none ];
  unpack-pack = λ a. refl;
}

instance abbrev pub template_slot : Slot StoredTemplate
template_slot = record {
  pack = of_template;
  unpack = λ c. elim c [ of_template a ↦ some a | _ ↦ none ];
  unpack-pack = λ a. refl;
}

instance abbrev pub templates_slot : Slot (List StoredTemplate)
templates_slot = record {
  pack = of_templates;
  unpack = λ c. elim c [ of_templates a ↦ some a | _ ↦ none ];
  unpack-pack = λ a. refl;
}

instance abbrev pub template_list_slot : Slot (StoredList StoredTemplate)
template_list_slot = record {
  pack = of_template_list;
  unpack = λ c. elim c [ of_template_list a ↦ some a | _ ↦ none ];
  unpack-pack = λ a. refl;
}

instance abbrev pub cluster_spec_slot : Slot VdClusterSpec
cluster_spec_slot = record {
  pack = of_cluster_spec;
  unpack = λ c. elim c [ of_cluster_spec a ↦ some a | _ ↦ none ];
  unpack-pack = λ a. refl;
}

instance abbrev pub cluster_status_slot : Slot VdClusterStatus
cluster_status_slot = record {
  pack = of_cluster_status;
  unpack = λ c. elim c [ of_cluster_status a ↦ some a | _ ↦ none ];
  unpack-pack = λ a. refl;
}

instance abbrev pub cluster_slot : Slot StoredCluster
cluster_slot = record {
  pack = of_cluster;
  unpack = λ c. elim c [ of_cluster a ↦ some a | _ ↦ none ];
  unpack-pack = λ a. refl;
}

instance abbrev pub clusters_slot : Slot (List StoredCluster)
clusters_slot = record {
  pack = of_clusters;
  unpack = λ c. elim c [ of_clusters a ↦ some a | _ ↦ none ];
  unpack-pack = λ a. refl;
}

instance abbrev pub cluster_list_slot : Slot (StoredList StoredCluster)
cluster_list_slot = record {
  pack = of_cluster_list;
  unpack = λ c. elim c [ of_cluster_list a ↦ some a | _ ↦ none ];
  unpack-pack = λ a. refl;
}
