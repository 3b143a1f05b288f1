-- ===== src/Examples/World.antt =====
-- A world to run the controllers in: a service that does as it is told, and the objects.
use mathlib.Core.List.Perm
use cluster_api_provider_vmw.Base.{
  ℕ, String, ◌≡◌, refl, ◌==◌, eq_iff, arith, true, false, none, some, List, [], ◌∷◌, if◌then◌else◌,
}
use cluster_api_provider_vmw.Api.Machine.{
  ObjectMeta, VdMachine, VdMachineSpec, VdMachineStatus, VdNetwork, VdNetworkEthernet,
  machine_finalizer,
}
use cluster_api_provider_vmw.Api.Cluster.{VdCluster}
use cluster_api_provider_vmw.Program.{State}
use cluster_api_provider_vmw.Client.Starts.{IsConfigured}
use cluster_api_provider_vmw.Remote.{
  success, found, missing, OwnerMachine, OwnerCluster, Call, Reply, Env, IsLawful, has,
  get_power_state, change_power_state, create_vm, update_vm, delete_vm, config_vm_params,
  get_vm_params, get_all_nic_devices, get_nic_info, get_all_shared_folders, create_shared_folder,
  delete_shared_folder, get_vd_machine, get_vd_cluster, get_owner_machine, get_cluster,
  get_owner_cluster, new_machine_helper, patch_machine, new_cluster_helper, patch_cluster,
  get_secret, get_claim, create_claim, get_address, getenv, rand_intn,
}

abbrev pub sample_meta : ObjectMeta
sample_meta = record { name = "node"; namespace = "default"; deleted = false; finalizers = [] }

abbrev pub sample_ethernet : VdNetworkEthernet
sample_ethernet = record {
  name = "eth0";
  dhcp4 = some true;
  dhcp6 = some false;
  type_ip = none;
  ipam_as_node_ip = none;
  ipam_ref = none;
  ipam_address = none;
  nameservers = [];
  routes = [];
}

abbrev pub sample_network : VdNetwork
sample_network = record { adapters = none; ethernets = sample_ethernet ∷ [] }

abbrev pub fresh_spec : VdMachineSpec
fresh_spec = record {
  provider_id = none;
  vm_id = none;
  template_id = "template";
  cpu = some 2;
  memory = none;
  network_config = none;
  network = some sample_network;
  shared_folders = [];
  vnc = none;
}

abbrev pub fresh_status : VdMachineStatus
fresh_status = record {
  ready = false;
  addresses = [];
  conditions = [];
  initialization = record { provisioned = false; bootstrap_data_provided = false };
  hardware = record { cpu = 0; memory = 0 };
  state = none;
  network_adapters = none;
  shared_folders = [];
  vnc = none;
}

-- A machine that has just been applied.
abbrev pub fresh_machine : VdMachine
fresh_machine = record { meta = sample_meta; spec = fresh_spec; status = fresh_status }

abbrev pub linked_spec : VdMachineSpec
linked_spec = record fresh_spec { provider_id = some "vmwaredesktop://A"; vm_id = some "A" }

-- A machine whose virtual machine has been made.
abbrev pub linked_machine : VdMachine
linked_machine = record {
  meta = sample_meta;
  spec = linked_spec;
  status = record fresh_status {
    network_adapters = some [];
    vnc = some (record {
      enabled = none;
      port = none;
      password = none;
      generate_port = none;
      generate_password = none;
    });
    hardware = record { cpu = 2; memory = 4096 };
  };
}

-- A machine that is being deleted.
abbrev pub leaving_machine : VdMachine
leaving_machine = record {
  meta = record sample_meta { deleted = true; finalizers = machine_finalizer ∷ [] };
  spec = linked_spec;
  status = record fresh_status { state = some "poweredOn" };
}

abbrev pub sample_cluster : VdCluster
sample_cluster = record {
  meta = sample_meta;
  spec = record { control_plane_endpoint = record { host = "10.0.0.1"; port = 6443 } };
  status = record { ready = false };
}

abbrev pub owner_machine : OwnerMachine
owner_machine = record { meta = sample_meta; data_secret_name = some "secret" }

abbrev pub owner_cluster : OwnerCluster
owner_cluster = record { meta = sample_meta; infrastructure_provisioned = some true }

-- The answers, for the machine that the Kubernetes API has.
abbrev pub answer_with : VdMachine → List Call → (c : Call) → Reply c
answer_with m h (get_power_state _) = success "poweredOff"
answer_with m h (change_power_state _ _) = success "poweredOn"
answer_with m h (create_vm _ _) =
    success (record { id = "A"; processors = some 2; memory = some 4096 })
answer_with m h (update_vm id cpu memory) =
    success (record { id = id; processors = some cpu; memory = some memory })
answer_with m h (delete_vm _) = success tt
answer_with m h (config_vm_params _ _ _) = success tt
answer_with m h (get_vm_params _ _) = success (some "")
answer_with m h (get_all_nic_devices _) = success (record { type = "nat"; vmnet = "vmnet8" } ∷ [])
answer_with m h (get_nic_info _) = success (record { ip = "10.0.0.5/24" ∷ [] } ∷ [])
answer_with m h (get_all_shared_folders _) = success []
answer_with m h (create_shared_folder _ _) = success tt
answer_with m h (delete_shared_folder _ _) = success tt
answer_with m h (get_vd_machine _) = found m
answer_with m h (get_vd_cluster _) = found sample_cluster
answer_with m h (get_owner_machine _) = found (some owner_machine)
answer_with m h (get_cluster _) = found owner_cluster
answer_with m h (get_owner_cluster _) = found (some owner_cluster)
answer_with m h (new_machine_helper _) = none
answer_with m h (patch_machine _) = none
answer_with m h (new_cluster_helper _) = none
answer_with m h (patch_cluster _) = none
answer_with m h (get_secret _) = found (("value", "id: x") ∷ [])
answer_with m h (get_claim _) = missing "not found"
answer_with m h (create_claim _) = none
answer_with m h (get_address _) = missing "not found"
answer_with m h (getenv _) = "set"
answer_with m h (rand_intn _) = 0

unfoldable pub remove_all : String → List String → List String
remove_all name [] = []
remove_all name (f ∷ finalizers) =
    let rest = remove_all name finalizers in if f == name then rest else f ∷ rest

has-remove_all :
    (name : String) (finalizers : List String) → has name (remove_all name finalizers) ≡ false
unfolding remove_all
has-remove_all name [] = refl
has-remove_all name (f ∷ finalizers) = let rest = has-remove_all name finalizers in ground arith

abbrev pub world : VdMachine → Env
world m = record {
  answer = answer_with m;
  order = λ A h xs. xs;
  add_finalizer = λ name finalizers. name ∷ finalizers;
  remove_finalizer = remove_all;
  is_paused = λ cluster meta. false;
}

pub world-IsLawful : (m : VdMachine) → IsLawful (world m)
world-IsLawful m = record {
  order-perm = λ A h xs. Perm.refl xs;
  rand_intn-lt = λ h n lt. lt;
  has-add_finalizer = λ name finalizers. let e = eq_iff name name in ground arith;
  has-remove_finalizer = has-remove_all;
}

-- The state before a step.
abbrev pub start : VdMachine → State VdMachine
start m = record { object = m; calls = [] }

-- An environment in which each variable is set.
pub set-IsConfigured :
    (E : Env)
    → ((calls : List Call) (name : String) → E.answer calls (getenv name) ≡ "set")
    → IsConfigured E "set" "set" "set"
set-IsConfigured E answers = record {
  url_set = λ calls. answers calls "VMREST_URL";
  username_set = λ calls. answers calls "VMREST_USERNAME";
  password_set = λ calls. answers calls "VMREST_PASSWORD";
  url_nonempty = refl;
  username_nonempty = refl;
  password_nonempty = refl;
}

-- The same world with other answers, random numbers aside.
pub answering-IsLawful :
    (m : VdMachine) (answer : List Call → (c : Call) → Reply c)
    → ((h : List Call) (n : ℕ) → answer h (rand_intn n) ≡ 0)
    → IsLawful (record (world m) { answer = answer })
answering-IsLawful m answer drawn =
    let lawful = world-IsLawful m in
    record {
      order-perm = lawful.order-perm;
      rand_intn-lt = λ h n lt. let e = drawn h n in ground arith;
      has-add_finalizer = lawful.has-add_finalizer;
      has-remove_finalizer = lawful.has-remove_finalizer;
    }
