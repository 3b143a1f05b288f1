-- ===== src/Copy/Structs.antt =====
-- The types of api/v1alpha1 as they lie in memory: a pointer is an address or nil, and a slice is
-- the address of its elements or nil.
use cluster_api_provider_vmw.Base.{ℕ, String, Bool, Option, List}
use cluster_api_provider_vmw.Api.Machine.{
  Int32, VdHardware, InitializationStatus, MachineAddress, Condition,
}
use cluster_api_provider_vmw.Api.Cluster.{VdClusterSpec, VdClusterStatus}

-- The address of a variable of type `A`.
pub record Ref (A : Type 0) : Type 0 where
  pub at : ℕ

abbrev pub Pointer : Type 0 → Type 0
Pointer A = Option (Ref A)

abbrev pub Slice : Type 0 → Type 0
Slice A = Option (Ref (List A))

-- `metav1.TypeMeta`
pub record TypeMeta : Type 0 where
  pub kind : String
  pub api_version : String

-- `metav1.ObjectMeta` and `clusterv1.ObjectMeta`, of which these fields are read or written.
pub record StoredMeta : Type 0 where
  pub name : String
  pub namespace : String
  pub deleted : Bool
  pub finalizers : Slice String

-- `metav1.ListMeta`
pub record ListMeta : Type 0 where
  pub resource_version : String

-- `corev1.TypedLocalObjectReference`
pub record StoredReference : Type 0 where
  pub api_group : Pointer String
  pub kind : String
  pub name : String

pub record StoredFolder : Type 0 where
  pub folder_id : String
  pub host_path : String
  pub flags : Pointer Int32

pub record StoredAdapter : Type 0 where
  pub type : Pointer String
  pub vmnet : Pointer String
  pub virtual_dev : Pointer String

pub record StoredRoute : Type 0 where
  pub to : String
  pub via : Pointer String

pub record StoredEthernet : Type 0 where
  pub name : String
  pub dhcp4 : Pointer Bool
  pub dhcp6 : Pointer Bool
  pub type_ip : Pointer String
  pub ipam_as_node_ip : Pointer Bool
  pub ipam_ref : Pointer StoredReference
  pub ipam_address : Pointer String
  pub nameservers : Slice String
  pub routes : Slice StoredRoute

pub record StoredNetwork : Type 0 where
  pub adapters : Slice StoredAdapter
  pub ethernets : Slice StoredEthernet

pub record StoredVnc : Type 0 where
  pub enabled : Pointer Bool
  pub port : Pointer String
  pub password : Pointer String
  pub generate_port : Pointer Bool
  pub generate_password : Pointer Bool

pub record StoredMachineSpec : Type 0 where
  pub provider_id : Pointer String
  pub vm_id : Pointer String
  pub template_id : String
  pub cpu : Pointer Int32
  pub memory : Pointer Int32
  pub network_config : Pointer String
  pub network : Pointer StoredNetwork
  pub shared_folders : Slice StoredFolder
  pub vnc : Pointer StoredVnc

pub record StoredMachineStatus : Type 0 where
  pub ready : Bool
  pub addresses : Slice MachineAddress
  pub conditions : Slice Condition
  pub initialization : InitializationStatus
  pub hardware : VdHardware
  pub state : Pointer String
  pub network_adapters : Slice StoredAdapter
  pub shared_folders : Slice StoredFolder
  pub vnc : Pointer StoredVnc

pub record StoredMachine : Type 0 where
  pub type_meta : TypeMeta
  pub meta : StoredMeta
  pub spec : StoredMachineSpec
  pub status : StoredMachineStatus

pub record StoredTemplateResource : Type 0 where
  pub meta : StoredMeta
  pub spec : StoredMachineSpec

pub record StoredTemplateSpec : Type 0 where
  pub template : StoredTemplateResource

-- `VDMachineTemplateStatus` has no fields.
pub record TemplateStatus : Type 0 where

pub record StoredTemplate : Type 0 where
  pub type_meta : TypeMeta
  pub meta : StoredMeta
  pub spec : StoredTemplateSpec
  pub status : TemplateStatus

pub record StoredCluster : Type 0 where
  pub type_meta : TypeMeta
  pub meta : StoredMeta
  pub spec : VdClusterSpec
  pub status : VdClusterStatus

-- `VDMachineList`, `VDMachineTemplateList` and `VDClusterList`
pub record StoredList (A : Type 0) : Type 0 where
  pub type_meta : TypeMeta
  pub meta : ListMeta
  pub items : Slice A
