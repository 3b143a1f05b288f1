-- ===== src/Api/Cluster.antt =====
-- api/v1alpha1/vdcluster_types.go
use cluster_api_provider_vmw.Base.{ℕ, String, Bool}
use cluster_api_provider_vmw.Api.Machine.{ObjectMeta}

abbrev pub cluster_finalizer : String
cluster_finalizer = "vdcluster.infrastructure.cluster.x-k8s.io"

-- `clusterv1.APIEndpoint`
pub record ApiEndpoint : Type 0 where
  pub host : String
  pub port : ℕ

pub record VdClusterSpec : Type 0 where
  pub control_plane_endpoint : ApiEndpoint

pub record VdClusterStatus : Type 0 where
  pub ready : Bool

pub record VdCluster : Type 0 where
  pub meta : ObjectMeta
  pub spec : VdClusterSpec
  pub status : VdClusterStatus
