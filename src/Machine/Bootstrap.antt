-- ===== src/Machine/Bootstrap.antt =====
-- `reconcileBootstrapData` and `GetSecretData`
pub mod NoNetwork
pub mod Sent
pub mod Received
use cluster_api_provider_vmw.Base.{
  String, ◌<>◌, ◌==◌, true, Option, none, some, List, [], ◌∷◌, ◌++◌, map, lookup, if◌then◌else◌,
}
use cluster_api_provider_vmw.Text.{itoa, replace_all}
use cluster_api_provider_vmw.Text.Base64.{encode_base64}
use cluster_api_provider_vmw.Api.Machine.{VdMachine, VdNetworkEthernet, VdNetworkRoute}
use cluster_api_provider_vmw.Remote.{
  Fetched, found, missing, broken, IpAddress, OwnerMachine, get_secret, config_vm_params, Env,
}
use cluster_api_provider_vmw.Program.{
  M, pure, raise, deref, get, history, modify, send, for_each, fold_each, or_raise, ◌>>=◌, ◌>>◌,
}
use cluster_api_provider_vmw.Machine.Fields.{with_status}
use cluster_api_provider_vmw.Machine.Ipam.{find_ipam_address}
use cluster_api_provider_vmw.Machine.Metadata.{Route, Ethernet, Metadata, render_metadata}

unfoldable pub secret_value : Fetched (List (String × String)) → M VdMachine String
secret_value (found entries) = elim (lookup "value" entries) [
  | none ↦ raise "secret does not contain value"
  | some value ↦ pure value
]
secret_value (missing e) = raise e
secret_value (broken e) = raise e

-- `GetSecretData`
unfoldable pub get_secret_data : Env → String → String → M VdMachine String
unfolding secret_value
get_secret_data E namespace name = do
  reply ← send E (get_secret (record { namespace = namespace; name = name }))
  secret_value reply

-- The variables `ethernets` and `nodeIP` of the loop.
pub record Rendered : Type 0 where
  pub ethernets : List Ethernet
  pub node_ip : Option String

-- `ipamAddress != nil && ipamAddress.Spec.Address != ""`
abbrev pub usable : Option IpAddress → Option IpAddress
usable none = none
usable (some ip) = if ip.address == "" then none else some ip

-- The list `addresses`, where a missing prefix panics.
unfoldable pub ipam_addresses : Option IpAddress → M VdMachine (List String)
ipam_addresses none = pure []
ipam_addresses (some ip) = do
  prefix ← deref ip.prefix
  pure ((ip.address <> "/" <> itoa prefix) ∷ [])

-- A route without a gateway takes that of the address pool.
abbrev pub route_of : Option IpAddress → VdNetworkRoute → Route
route_of none r = record { to = r.to; via = r.via }
route_of (some ip) r = record {
  to = r.to;
  via = elim r.via [ none ↦ some ip.gateway | some via ↦ some via ];
}

-- `IpamAsNodeIP` makes the address the node's; otherwise an earlier one stays.
abbrev pub node_ip_of : VdNetworkEthernet → Option IpAddress → Option String → Option String
node_ip_of ethernet none old = old
node_ip_of ethernet (some ip) old = elim ethernet.ipam_as_node_ip [
  | none ↦ old
  | some chosen ↦ if chosen then some ip.address else old
]

-- The map `params`.
abbrev pub guestinfo : String → String → List (String × String)
guestinfo userdata metadata =
    ("guestinfo.userdata", userdata)
    ∷ ("guestinfo.userdata.encoding", "base64")
    ∷ ("guestinfo.metadata", metadata)
    ∷ ("guestinfo.metadata.encoding", "base64")
    ∷ []

abbrev pub mark_provided : VdMachine → VdMachine
mark_provided = with_status λ status. record status {
  initialization = record (status.initialization) { bootstrap_data_provided = true };
}

module _ (E : Env) where
  -- The body of the loop over the ethernets.
  unfoldable pub render_ethernet : VdMachine → VdNetworkEthernet → Rendered → M VdMachine Rendered
  render_ethernet m ethernet acc = do
    ipam ← find_ipam_address E m ethernet
    addresses ← ipam_addresses (usable ipam)
    pure (record {
      ethernets =
          acc.ethernets
          ++ (record {
            name = some ethernet.name;
            dhcp4 = ethernet.dhcp4;
            dhcp6 = ethernet.dhcp6;
            gateway4 = none;
            gateway6 = none;
            addresses = addresses;
            nameservers = ethernet.nameservers;
            routes = map (route_of ipam) ethernet.routes;
          }
              ∷ []);
      node_ip = node_ip_of ethernet (usable ipam) acc.node_ip;
    })

  -- A machine without a network panics here.
  unfoldable pub build_metadata : String → M VdMachine Metadata
  build_metadata vm_id = do
    m ← get
    network ← deref m.spec.network
    rendered ←
        fold_each network.ethernets (render_ethernet m) (record { ethernets = []; node_ip = none })
    pure (record {
      instance_id = some vm_id;
      hostname = some m.meta.name;
      node_ip = rendered.node_ip;
      ethernets = rendered.ethernets;
    })

  unfoldable pub send_guestinfo : String → String × String → M VdMachine (Unit {0})
  send_guestinfo vm_id (name, value) = do
    reply ← send E (config_vm_params vm_id name value)
    or_raise reply

  -- From `logger.Info("Configuring VM")` on, up to the end of the loop over `params`.
  unfoldable pub send_bootstrap_data : String → OwnerMachine → M VdMachine (Unit {0})
  send_bootstrap_data vm_id owner = do
    m ← get
    secret ← deref owner.data_secret_name
    data' ← get_secret_data E m.meta.namespace secret
    provider_id ← deref m.spec.provider_id
    let userdata = encode_base64 (replace_all data' "{ provider_id }" provider_id)
    metadata ← build_metadata vm_id
    params ← history (λ h.
        E.order (String × String) h (guestinfo userdata (encode_base64 (render_metadata metadata))))
    for_each params (send_guestinfo vm_id)

  unfoldable pub provide_bootstrap_data : String → OwnerMachine → M VdMachine (Unit {0})
  provide_bootstrap_data vm_id owner = send_bootstrap_data vm_id owner >> modify mark_provided

  unfoldable pub reconcile_bootstrap_data : String → OwnerMachine → M VdMachine (Unit {0})
  reconcile_bootstrap_data vm_id owner = do
    m ← get
    if m.status.initialization.bootstrap_data_provided
        then pure tt
        else provide_bootstrap_data vm_id owner
