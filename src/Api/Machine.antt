-- ===== src/Api/Machine.antt =====
-- api/v1alpha1/vdmachine_types.go. A pointer is an `Option`. A slice whose being nil is tested is
-- an `Option` of a list; of the other slices only the elements matter. An `int32` is its bit
-- pattern: the code only copies and compares these numbers.
use cluster_api_provider_vmw.Base.{ℕ, String, Bool, Option, List}

abbrev pub Int32 : Type 0
Int32 = ℕ

abbrev pub machine_finalizer : String
machine_finalizer = "vdmachine.infrastructure.cluster.x-k8s.io"

pub record VdHardware : Type 0 where
  pub cpu : Int32
  pub memory : Int32

pub record VdSharedFolder : Type 0 where
  pub folder_id : String
  pub host_path : String
  pub flags : Option Int32

pub record VdNetworkAdapter : Type 0 where
  pub type : Option String
  pub vmnet : Option String
  pub virtual_dev : Option String

pub record VdNetworkRoute : Type 0 where
  pub to : String
  pub via : Option String

-- `corev1.TypedLocalObjectReference`, of which these fields are read.
pub record ObjectReference : Type 0 where
  pub api_group : Option String
  pub kind : String
  pub name : String

pub record VdNetworkEthernet : Type 0 where
  pub name : String
  pub dhcp4 : Option Bool
  pub dhcp6 : Option Bool
  pub type_ip : Option String
  pub ipam_as_node_ip : Option Bool
  pub ipam_ref : Option ObjectReference
  pub ipam_address : Option String
  pub nameservers : List String
  pub routes : List VdNetworkRoute

pub record VdNetwork : Type 0 where
  pub adapters : Option (List VdNetworkAdapter)
  pub ethernets : List VdNetworkEthernet

pub record Vnc : Type 0 where
  pub enabled : Option Bool
  pub port : Option String
  pub password : Option String
  pub generate_port : Option Bool
  pub generate_password : Option Bool

pub record VdMachineSpec : Type 0 where
  pub provider_id : Option String
  pub vm_id : Option String
  pub template_id : String
  pub cpu : Option Int32
  pub memory : Option Int32
  pub network_config : Option String
  pub network : Option VdNetwork
  pub shared_folders : List VdSharedFolder
  pub vnc : Option Vnc

pub record InitializationStatus : Type 0 where
  pub provisioned : Bool
  pub bootstrap_data_provided : Bool

-- `clusterv1.MachineAddress`
pub record MachineAddress : Type 0 where
  pub type : String
  pub address : String

-- `metav1.Condition` is opaque here: the conditions are only stored and returned.
abbrev pub Condition : Type 0
Condition = String

pub record VdMachineStatus : Type 0 where
  pub ready : Bool
  pub addresses : List MachineAddress
  pub conditions : List Condition
  pub initialization : InitializationStatus
  pub hardware : VdHardware
  pub state : Option String
  pub network_adapters : Option (List VdNetworkAdapter)
  pub shared_folders : List VdSharedFolder
  pub vnc : Option Vnc

-- `metav1.ObjectMeta`, of which these fields are read or written. `deleted` says whether
-- `DeletionTimestamp.IsZero()` is false.
pub record ObjectMeta : Type 0 where
  pub name : String
  pub namespace : String
  pub deleted : Bool
  pub finalizers : List String

pub record VdMachine : Type 0 where
  pub meta : ObjectMeta
  pub spec : VdMachineSpec
  pub status : VdMachineStatus

-- `GetV1Beta2Conditions`
unfoldable pub get_conditions : VdMachine → List Condition
get_conditions m = m.status.conditions

-- `SetV1Beta2Conditions`
unfoldable pub set_conditions : List Condition → VdMachine → VdMachine
set_conditions conditions m = record m { status = record (m.status) { conditions = conditions } }
