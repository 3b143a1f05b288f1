-- ===== src/Lib.antt =====
-- The Cluster API provider for VMware Desktop: the controllers of internal/controller and the
-- types of api/v1alpha1.
--
-- The provider has two controllers. `VDClusterReconciler.Reconcile` marks a cluster as ready, or
-- lets it go when it is deleted. `VDMachineReconciler.Reconcile` fetches a machine and its owners,
-- observes the power state of the virtual machine, and then runs either `reconcileDelete` or
-- `reconcileNormal`, which creates the virtual machine or brings it up step by step: hardware,
-- network adapters, address claims, shared folders, VNC, bootstrap data, power, addresses. A step
-- may end the run with an error or with a time after which to run again. Both controllers store
-- the object by a deferred patch, on every outcome but the end of the process.
--
-- The state and the outside. Base has the shared names, Boolean tests, lists and maps. Remote has
-- one constructor of `Call` for each call that leaves the process (the Kubernetes API, the vmrest
-- service, environment variables, random numbers) and the parameter `Env`, which answers a call
-- from all the calls before it, so that the other side may be in any state and change between
-- two calls. What the code relies on is in `IsLawful`. The order in which Go walks a map is a
-- parameter too. Program has the actions: an action takes the object and the list of the calls so
-- far, and returns, fails, panics (a nil pointer) or ends the process, with the object and the
-- calls as they then are. `deferred` is `defer helper.Patch(...)`; `patch_machine m` in the calls
-- is the machine as it was handed to the patch helper. Program/Keeps, Program/Returns and
-- Program/Yields have the rules by which facts pass through an action: on every outcome, where it
-- returns, and that it does return. Program/Steps runs an action whose first part is known. The
-- start of the process has its own calls and its own parameter, `Host` of Process.
--
-- The parts and their files:
--   api/v1alpha1/vdmachine_types.go, vdcluster_types.go, vdmachinetemplate_types.go: Api
--   internal/controller/vdclient_generator.go (`NewVDClient`): Client
--   internal/controller/vdcluster_controller.go: Cluster
--   internal/controller/vdmachine_controller.go: Machine, with a module for each step:
--     `Reconcile`: Machine/Reconcile          `reconcileNormal`: Machine/Normal
--     `reconcileCreateVM`: Machine/Create     `reconcileHardware`: Machine/Hardware
--     `reconcilePowerState`: Machine/Power    `reconcileDelete`: Machine/Delete
--     `reconcileAddresses`, `extractAddresses`: Machine/Addresses
--     `reconcileBootstrapData`, `GetSecretData`: Machine/Bootstrap, Machine/Metadata
--     `reconcileNetworkAdapters`, `contains`: Machine/Adapters
--     `reconcileNetworkAddresses`, `findIpamAddress`: Machine/Ipam
--     `reconcileVnc`, `updateVncStatus`, `generatePassword`, `paramToPointer`: Machine/Vnc
--     `reconcileSharedFolders`, `sharedFoldersEqual`: Machine/Folders
--   internal/controller/constants.go (`metadataTemplate`): Machine/Metadata
--   what these use of Go's standard library on texts: Text; of `net` (`ParseCIDR`, `IP.To4`,
--   `IP.String`): Text/Ip; of `encoding/base64`: Text/Base64
--   api/v1alpha1/zz_generated.deepcopy.go: Copy, where the structures lie in a memory of cells
--     (Copy/Structs, Copy/Slots, Copy/Heap), `DeepCopyInto` and `DeepCopy` are commands on it
--     (Copy/Values, Copy/Into) and so is `DeepCopyObject` (Copy/Objects); Copy/Shows says which
--     value of Api a structure in memory shows
--   cmd/main.go, api/v1alpha1/groupversion_info.go and `SetupWithManager`: Process
-- Machine/Core, Machine/Life, Copy/Rules, Copy/Apart and the modules below each step are proofs.
-- Examples has runs at concrete inputs.
--
-- Bounds. The loops of the code run over lists or a fixed number of times, so they are structural
-- recursion. The only fuel is that of the decimal text of a number `n`, which gets `n + 1` rounds,
-- and each round drops a digit (Text/Digits). An `int32` is only copied and
-- compared, so it is its bit pattern.
--
-- Not modelled: log lines and tests. The parsing of the flags, the test for a pause, the handling
-- of finalizer lists, the patch helper, the manager, the certificate watchers and the deep copies of
-- the Kubernetes types (`Foreign` of Copy/Into) are third-party or library code and are parameters.
-- An error is its message; `%q` of a folder id is the id in quotes; the bytes of a Secret are a text.
pub mod Base
pub mod Api
pub mod Remote
pub mod Program
pub mod Client
pub mod Process
pub mod Machine
pub mod Text
pub mod Cluster
pub mod Copy
pub mod Examples
