-- ===== src/Remote.antt =====
-- Everything outside the process that the controllers talk to: the Kubernetes API, the vmrest
-- service, the environment variables and the random numbers. None of it is code of this
-- repository, so it is a parameter: `Env` answers each call from the whole history of calls,
-- which allows any state on the other side and any change between two calls.
use cluster_api_provider_vmw.Base.{
  ℕ, ◌<◌, ◌≡◌, String, ◌==◌, Bool, true, false, ◌||◌, Option, List, [], ◌∷◌,
}
use cluster_api_provider_vmw.Api.Machine.{Int32, ObjectMeta, VdMachine}
use cluster_api_provider_vmw.Api.Cluster.{VdCluster}
use mathlib.Core.List.{Perm}

-- The message of an `error`.
abbrev pub Error : Type 0
Error = String

-- What `Execute()` returns: a value, or an error with the status code of the response, which is
-- nil when there was none.
pub data Http (A : Type 0) : Type 0 where
  success : A → Http A
  failure : Option ℕ → Error → Http A

-- What a read from the Kubernetes API returns; `missing` is an error with `IsNotFound`.
pub data Fetched (A : Type 0) : Type 0 where
  found : A → Fetched A
  missing : Error → Fetched A
  broken : Error → Fetched A

-- Namespace and name.
pub record ObjectKey : Type 0 where
  pub namespace : String
  pub name : String

-- The fields of `vmrest.VMInformation` that are read. `processors` is `Cpu.Processors`.
pub record VmInformation : Type 0 where
  pub id : String
  pub processors : Option Int32
  pub memory : Option Int32

pub record NicDevice : Type 0 where
  pub type : String
  pub vmnet : String

pub record NicIpStack : Type 0 where
  pub ip : List String

pub record SharedFolder : Type 0 where
  pub folder_id : String
  pub host_path : String
  pub flags : Int32

-- The fields of `clusterv1.Machine` and `clusterv1.Cluster` that are read.
pub record OwnerMachine : Type 0 where
  pub meta : ObjectMeta
  pub data_secret_name : Option String

pub record OwnerCluster : Type 0 where
  pub meta : ObjectMeta
  pub infrastructure_provisioned : Option Bool

-- `ipamv1.IPAddressClaim`: its key and its pool. The owner is the machine that creates it.
pub record IpAddressClaim : Type 0 where
  pub name : String
  pub namespace : String
  pub api_group : String
  pub kind : String
  pub pool : String

-- `ipamv1.IPAddressSpec`
pub record IpAddress : Type 0 where
  pub address : String
  pub prefix : Option ℕ
  pub gateway : String

-- `vmrest.VMPOWEROPERATION_ON` and `vmrest.VMPOWEROPERATION_OFF`
pub data PowerOperation : Type 0 where
  on off : PowerOperation

-- One constructor for each call that leaves the process.
pub data Call : Type 0 where
  get_power_state : String → Call
  change_power_state : String → PowerOperation → Call
  create_vm : String → String → Call
  update_vm : String → Int32 → Int32 → Call
  delete_vm : String → Call
  config_vm_params : String → String → String → Call
  get_vm_params : String → String → Call
  get_all_nic_devices : String → Call
  get_nic_info : String → Call
  get_all_shared_folders : String → Call
  create_shared_folder : String → SharedFolder → Call
  delete_shared_folder : String → String → Call
  get_vd_machine : ObjectKey → Call
  get_vd_cluster : ObjectKey → Call
  get_owner_machine : ObjectMeta → Call
  get_cluster : ObjectMeta → Call
  get_owner_cluster : ObjectMeta → Call
  new_machine_helper : VdMachine → Call
  patch_machine : VdMachine → Call
  new_cluster_helper : VdCluster → Call
  patch_cluster : VdCluster → Call
  get_secret : ObjectKey → Call
  get_claim : ObjectKey → Call
  create_claim : IpAddressClaim → Call
  get_address : ObjectKey → Call
  getenv : String → Call
  rand_intn : ℕ → Call

-- The type of the answer. An `error` that may be nil is an `Option Error`; a pointer result
-- that may be nil is an `Option`.
abbrev pub Reply : Call → Type 0
Reply (get_power_state _) = Http String
Reply (change_power_state _ _) = Http String
Reply (create_vm _ _) = Http VmInformation
Reply (update_vm _ _ _) = Http VmInformation
Reply (delete_vm _) = Http (Unit {0})
Reply (config_vm_params _ _ _) = Http (Unit {0})
Reply (get_vm_params _ _) = Http (Option String)
Reply (get_all_nic_devices _) = Http (List NicDevice)
Reply (get_nic_info _) = Http (List NicIpStack)
Reply (get_all_shared_folders _) = Http (List SharedFolder)
Reply (create_shared_folder _ _) = Http (Unit {0})
Reply (delete_shared_folder _ _) = Http (Unit {0})
Reply (get_vd_machine _) = Fetched VdMachine
Reply (get_vd_cluster _) = Fetched VdCluster
Reply (get_owner_machine _) = Fetched (Option OwnerMachine)
Reply (get_cluster _) = Fetched OwnerCluster
Reply (get_owner_cluster _) = Fetched (Option OwnerCluster)
Reply (new_machine_helper _) = Option Error
Reply (patch_machine _) = Option Error
Reply (new_cluster_helper _) = Option Error
Reply (patch_cluster _) = Option Error
Reply (get_secret _) = Fetched (List (String × String))
Reply (get_claim _) = Fetched IpAddressClaim
Reply (create_claim _) = Option Error
Reply (get_address _) = Fetched IpAddress
Reply (getenv _) = String
Reply (rand_intn _) = ℕ

-- `order` is the order in which `range` walks a map, which Go leaves open. `is_paused` is
-- `annotations.IsPaused`; `add_finalizer` and `remove_finalizer` are what the functions of
-- `controllerutil` do to the list of finalizers.
pub record Env : Type 1 where
  pub answer : List Call → (c : Call) → Reply c
  pub order : (A : Type 0) → List Call → List A → List A
  pub add_finalizer : String → List String → List String
  pub remove_finalizer : String → List String → List String
  pub is_paused : OwnerCluster → ObjectMeta → Bool

-- Whether a finalizer is set.
abbrev pub has : String → List String → Bool
has name [] = false
has name (f ∷ finalizers) = f == name || has name finalizers

-- What the documentation promises: a walk over a map meets each entry once, `rand.Intn(n)` lies
-- below `n`, and a finalizer is there after it was added and gone after it was removed.
pub record IsLawful (E : Env) : Type 1 where
  pub order-perm : (A : Type 0) (h : List Call) (xs : List A) → Perm (E.order A h xs) xs
  pub rand_intn-lt : (h : List Call) (n : ℕ) → 0 < n → E.answer h (rand_intn n) < n
  pub has-add_finalizer :
      (name : String) (finalizers : List String) → has name (E.add_finalizer name finalizers) ≡ true
  pub has-remove_finalizer :
      (name : String) (finalizers : List String)
      → has name (E.remove_finalizer name finalizers) ≡ false
