-- ===== src/Machine/Core/Frames/Network.antt =====
-- `reconcileNetworkAdapters`, `reconcileNetworkAddresses` and the reading of bootstrap data.
use cluster_api_provider_vmw.Base.{
  ℕ, suc, String, Option, List, [], ◌∷◌, is_some, arith, refl, map, length, Bool, get_elem?,
}
use cluster_api_provider_vmw.Api.Machine.{
  VdMachine, VdNetworkAdapter, VdNetworkEthernet, ObjectReference, MachineAddress,
}
use cluster_api_provider_vmw.Remote.{IpAddress, OwnerMachine, NicIpStack, get_all_nic_devices, Env}
use cluster_api_provider_vmw.Program.{◌>>=◌}
use cluster_api_provider_vmw.Program.Keeps.{
  Keeps-pure, Keeps-raise, Keeps-bind, Keeps-deref, Keeps-or_wrap, Keeps-option, Keeps-if,
  Keeps-get, Keeps-history, Keeps-for_each, Keeps-fold_each, Keeps-then,
}
use cluster_api_provider_vmw.Machine.Core.{Frame, send-Frame, modify-Frame}
use cluster_api_provider_vmw.Machine.Adapters.{
  adapter_of, spec_adapters, elements, same_adapter, contains, contains_all, send_param,
  create_adapter, create_missing, refresh_adapters, reconcile_network_adapters,
}
use cluster_api_provider_vmw.Machine.Ipam.{
  await_address, await_addresses, reconcile_network_addresses, find_ipam_address, spec_ethernets,
}
use cluster_api_provider_vmw.Machine.Bootstrap.{
  Rendered, usable, send_guestinfo, send_bootstrap_data, get_secret_data, ipam_addresses,
  render_ethernet, build_metadata,
}
use cluster_api_provider_vmw.Text.Ip.{parse_cidr}
use cluster_api_provider_vmw.Machine.Addresses.{
  type_ip_of, dhcp6_of, is_skipped, add_address, extract_from, extract_addresses,
}

same_adapter-Frame : (a b : VdNetworkAdapter) → Frame (same_adapter a b)
unfolding same_adapter ◌>>=◌
same_adapter-Frame a b c = record { at = λ s h. ground arith }

contains-Frame : (status : List VdNetworkAdapter) (a : VdNetworkAdapter) → Frame (contains status a)
unfolding contains
contains-Frame [] a c = Keeps-pure _
contains-Frame (b ∷ status) a c =
    Keeps-bind _ _ (same_adapter-Frame b a c)
      λ same. Keeps-if same _ _ (Keeps-pure _) (contains-Frame status a c)

contains_all-Frame :
    (status adapters : List VdNetworkAdapter) → Frame (contains_all status adapters)
unfolding contains_all
contains_all-Frame status [] c = Keeps-pure _
contains_all-Frame status (a ∷ adapters) c =
    Keeps-bind _ _ (contains-Frame status a c)
      λ present. Keeps-if present _ _ (contains_all-Frame status adapters c) (Keeps-pure _)

module _ (E : Env) (vm_id : String) where
  send_param-Frame : (n : ℕ) (p : String × String) → Frame (send_param E vm_id n p)
  unfolding send_param ◌>>=◌
  send_param-Frame n p c = record { at = λ s h. ground arith }

  create_adapter-Frame : (n : ℕ) (a : VdNetworkAdapter) → Frame (create_adapter E vm_id n a)
  unfolding create_adapter
  create_adapter-Frame n a c = Keeps-bind _ _ (Keeps-deref a.type) λ type.
      Keeps-bind _ _ (Keeps-deref a.vmnet)
        λ vmnet. Keeps-history _ _ λ params. Keeps-for_each _ params λ p. send_param-Frame n p c

  create_missing-Frame :
      (status : List VdNetworkAdapter) (n : ℕ) (adapters : List VdNetworkAdapter)
      → Frame (create_missing E vm_id status n adapters)
  unfolding create_missing
  create_missing-Frame status n [] c = Keeps-pure _
  create_missing-Frame status n (a ∷ adapters) c =
      Keeps-bind _ _ (contains-Frame status a c) λ present.
        Keeps-bind _ _ (Keeps-if present _ _ (Keeps-pure _) (create_adapter-Frame n a c))
          (λ _. create_missing-Frame status (suc n) adapters c)

  refresh_adapters-Frame : Frame (refresh_adapters E vm_id)
  unfolding refresh_adapters
  refresh_adapters-Frame c =
      Keeps-bind _ _ (send-Frame E (get_all_nic_devices vm_id) refl c) λ reply.
        Keeps-bind _ _ (Keeps-or_wrap _ reply) λ nics.
          Keeps-bind _ _ (modify-Frame _ (λ s. refl) c) λ _. Keeps-get _ λ m.
            Keeps-option (spec_adapters m) _ _ (Keeps-pure _) λ adapters.
              Keeps-bind _ _ (create_missing-Frame (map adapter_of nics) (length nics) adapters c)
                λ _. Keeps-pure _

  pub reconcile_network_adapters-Frame : Frame (reconcile_network_adapters E vm_id)
  unfolding reconcile_network_adapters
  reconcile_network_adapters-Frame c = Keeps-get _ λ m.
      Keeps-option (spec_adapters m) _ _
        (Keeps-if (is_some m.status.network_adapters) _ _ (Keeps-pure _) (refresh_adapters-Frame c))
        λ adapters.
          Keeps-bind _ _ (contains_all-Frame (elements m.status.network_adapters) adapters c)
            λ all. Keeps-if all _ _ (Keeps-pure _) (refresh_adapters-Frame c)

module _ (E : Env) where
  await_address-Frame :
      (m : VdMachine) (e : VdNetworkEthernet) (ref : ObjectReference)
      → Frame (await_address E m e ref)
  unfolding await_address ◌>>=◌
  await_address-Frame m e ref c = record { at = λ s h. ground arith }

  await_addresses-Frame :
      (m : VdMachine) (ethernets : List VdNetworkEthernet) → Frame (await_addresses E m ethernets)
  unfolding await_addresses
  await_addresses-Frame m [] c = Keeps-pure _
  await_addresses-Frame m (e ∷ ethernets) c =
      Keeps-then _ _
        (Keeps-option e.ipam_ref _ _ (Keeps-pure _) (λ ref. await_address-Frame m e ref c))
        (await_addresses-Frame m ethernets c)

  pub reconcile_network_addresses-Frame : Frame (reconcile_network_addresses E)
  unfolding reconcile_network_addresses
  reconcile_network_addresses-Frame c =
      Keeps-get _ λ m. await_addresses-Frame m (spec_ethernets m) c

  pub get_secret_data-Frame : (namespace name : String) → Frame (get_secret_data E namespace name)
  unfolding get_secret_data ◌>>=◌
  get_secret_data-Frame namespace name c = record { at = λ s h. ground arith }

  find_ipam_address-Frame :
      (m : VdMachine) (e : VdNetworkEthernet) → Frame (find_ipam_address E m e)
  unfolding find_ipam_address ◌>>=◌
  find_ipam_address-Frame m e c = record { at = λ s h. ground arith }

  ipam_addresses-Frame : (ip : Option IpAddress) → Frame (ipam_addresses ip)
  unfolding ipam_addresses ◌>>=◌
  ipam_addresses-Frame ip c = record { at = λ s h. ground arith }

  render_ethernet-Frame :
      (m : VdMachine) (e : VdNetworkEthernet) (acc : Rendered) → Frame (render_ethernet E m e acc)
  unfolding render_ethernet
  render_ethernet-Frame m e acc c =
      Keeps-bind _ _ (find_ipam_address-Frame m e c)
        λ ip. Keeps-bind _ _ (ipam_addresses-Frame (usable ip) c) λ _. Keeps-pure _

  pub build_metadata-Frame : (vm_id : String) → Frame (build_metadata E vm_id)
  unfolding build_metadata
  build_metadata-Frame vm_id c = Keeps-get _ λ m.
      Keeps-bind _ _ (Keeps-deref m.spec.network) λ network.
        Keeps-bind _ _
          (Keeps-fold_each (render_ethernet E m) network.ethernets _
            (λ e acc. render_ethernet-Frame m e acc c))
          (λ _. Keeps-pure _)

  send_guestinfo-Frame : (vm_id : String) (p : String × String) → Frame (send_guestinfo E vm_id p)
  unfolding send_guestinfo ◌>>=◌
  send_guestinfo-Frame vm_id p c = record { at = λ s h. ground arith }

  pub send_bootstrap_data-Frame :
      (vm_id : String) (owner : OwnerMachine) → Frame (send_bootstrap_data E vm_id owner)
  unfolding send_bootstrap_data
  send_bootstrap_data-Frame vm_id owner c = Keeps-get _ λ m.
      Keeps-bind _ _ (Keeps-deref owner.data_secret_name) λ secret.
        Keeps-bind _ _ (get_secret_data-Frame m.meta.namespace secret c) λ value.
          Keeps-bind _ _ (Keeps-deref m.spec.provider_id) λ provider_id.
            Keeps-bind _ _ (build_metadata-Frame vm_id c) λ metadata.
              Keeps-history _ _
                λ params. Keeps-for_each _ params λ p. send_guestinfo-Frame vm_id p c

add_address-Frame :
    (type_ip : String) (dhcp6 : Option Bool) (cidr : String) (acc : List MachineAddress)
    → Frame (add_address type_ip dhcp6 cidr acc)
unfolding add_address
add_address-Frame type_ip dhcp6 cidr acc c =
    Keeps-if (is_skipped dhcp6 (parse_cidr cidr)) _ _ (Keeps-pure _)
      (Keeps-option (parse_cidr cidr) _ _ (Keeps-raise _) (λ ip. Keeps-pure _))

extract_from-Frame :
    (nics : List NicIpStack) (i : ℕ) (acc : List MachineAddress) → Frame (extract_from nics i acc)
unfolding extract_from
extract_from-Frame [] i acc c = Keeps-pure _
extract_from-Frame (nic ∷ nics) i acc c = Keeps-get _ λ m.
    Keeps-bind _ _ (Keeps-deref m.spec.network) λ network.
      let ethernet = get_elem? network.ethernets i in
      Keeps-bind _ _
        (Keeps-fold_each (add_address (type_ip_of ethernet) (dhcp6_of ethernet)) nic.ip acc
          (λ cidr acc'. add_address-Frame (type_ip_of ethernet) (dhcp6_of ethernet) cidr acc' c))
        (λ acc'. extract_from-Frame nics (suc i) acc' c)

pub extract_addresses-Frame : (nics : List NicIpStack) → Frame (extract_addresses nics)
unfolding extract_addresses
extract_addresses-Frame nics c = extract_from-Frame nics 0 [] c
