-- ===== src/Machine/Metadata.antt =====
-- The types `Metadata`, `Ethernet` and `Route` of vdmachine_controller.go, and what
-- html/template makes of `metadataTemplate` in internal/controller/constants.go.
use cluster_api_provider_vmw.Base.{String, ◌<>◌, Bool, Option, none, some, List, [], ◌∷◌}
use cluster_api_provider_vmw.Text.{format_bool}
use cluster_api_provider_vmw.Text.Escape.{escape}

pub record Route : Type 0 where
  pub to : String
  pub via : Option String

pub record Ethernet : Type 0 where
  pub name : Option String
  pub dhcp4 : Option Bool
  pub dhcp6 : Option Bool
  pub gateway4 : Option String
  pub gateway6 : Option String
  pub addresses : List String
  pub nameservers : List String
  pub routes : List Route

pub record Metadata : Type 0 where
  pub instance_id : Option String
  pub hostname : Option String
  pub node_ip : Option String
  pub ethernets : List Ethernet

-- `{{ .Field }}` of a pointer; a nil pointer is printed as `<nil>`, escaped.
print : Option String → String
print none = "&lt;nil&gt;"
print (some s) = escape s

-- `{{- if .Field }}` around a line with the field in it.
when_some : {A : Type 0} → (A → String) → Option A → String
when_some f none = ""
when_some f (some a) = f a

-- `{{- range .Field }}`
each : {A : Type 0} → (A → String) → List A → String
each f [] = ""
each f (a ∷ as') = f a <> each f as'

-- `{{- if .Field }}` of a slice, around a heading and its entries.
section : {A : Type 0} → String → (A → String) → List A → String
unfolding each
section heading f [] = ""
section heading f (a ∷ as') = heading <> each f (a ∷ as')

route_lines : Route → String
unfolding when_some
route_lines route =
    "\n        - to: "
    <> escape route.to
    <> when_some (λ via. "\n          via: " <> escape via) route.via

ethernet_lines : Ethernet → String
unfolding when_some section route_lines
ethernet_lines e =
    when_some (λ b. "\n      dhcp4: " <> format_bool b) e.dhcp4
    <> when_some (λ b. "\n      dhcp6: " <> format_bool b) e.dhcp6
    <> section "\n      addresses:" (λ a. "\n        - " <> escape a) e.addresses
    <> section "\n      routes:" route_lines e.routes
    <> section "\n      nameservers:\n        addresses:" (λ a. "\n            - " <> escape a)
        e.nameservers
    <> when_some (λ g. "\n      gateway4: \"" <> escape g <> "\"") e.gateway4
    <> when_some (λ g. "\n      gateway6: \"" <> escape g <> "\"") e.gateway6

named_ethernet_lines : Ethernet → String
unfolding print ethernet_lines
named_ethernet_lines e = "\n    " <> print e.name <> ":" <> ethernet_lines e

unfoldable pub render_metadata : Metadata → String
unfolding print when_some section named_ethernet_lines
render_metadata metadata =
    "\ninstance-id: "
    <> print metadata.instance_id
    <> "\nlocal-hostname: "
    <> print metadata.hostname
    <> when_some (λ ip. "\nnode-ip: " <> escape ip) metadata.node_ip
    <> "\nnetwork:\n  version: 2"
    <> section "\n  ethernets:" named_ethernet_lines metadata.ethernets
