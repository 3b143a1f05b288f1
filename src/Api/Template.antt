-- ===== src/Api/Template.antt =====
-- api/v1alpha1/vdmachinetemplate_types.go. The type has no operations: templates are cloned by
-- the Cluster API controllers.
use cluster_api_provider_vmw.Api.Machine.{ObjectMeta, VdMachineSpec}

pub record VdMachineTemplateResource : Type 0 where
  pub meta : ObjectMeta
  pub spec : VdMachineSpec

pub record VdMachineTemplateSpec : Type 0 where
  pub template : VdMachineTemplateResource

pub record VdMachineTemplate : Type 0 where
  pub meta : ObjectMeta
  pub spec : VdMachineTemplateSpec
