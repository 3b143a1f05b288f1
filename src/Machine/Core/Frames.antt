-- ===== src/Machine/Core/Frames.antt =====
-- The steps for adapters, folders, VNC, IP addresses and metadata leave the core alone.
mod Network
mod Console
pub use Network.*
pub use Console.*
use cluster_api_provider_vmw.Base.{String, arith}
use cluster_api_provider_vmw.Remote.{Env}
use cluster_api_provider_vmw.Program.{◌>>=◌}
use cluster_api_provider_vmw.Program.Keeps.{Keeps}
use cluster_api_provider_vmw.Client.{new_vd_client}
use cluster_api_provider_vmw.Machine.Core.{Frame, core}
use cluster_api_provider_vmw.Machine.Hardware.{reconcile_hardware}

module _ (E : Env) where
  pub new_vd_client-Frame : Frame (new_vd_client E)
  unfolding new_vd_client ◌>>=◌
  new_vd_client-Frame c = record { at = λ s h. ground arith }

  pub reconcile_hardware-Frame : (vm_id : String) → Frame (reconcile_hardware E vm_id)
  unfolding reconcile_hardware ◌>>=◌
  reconcile_hardware-Frame vm_id c = record { at = λ s h. ground arith }
