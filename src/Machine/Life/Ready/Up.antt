-- ===== src/Machine/Life/Ready/Up.antt =====
-- A new machine comes up in three runs.
use mathlib.Core.Path.{subst}
use cluster_api_provider_vmw.Base.{
  ◌≡◌, refl, sym, ap, ◌∙◌, ◌*◌, String, Bool, true, false, none, some, List, ◌∷◌, arith,
}
use cluster_api_provider_vmw.Api.Machine.{VdMachine, VdMachineSpec, VdNetwork, Int32}
use cluster_api_provider_vmw.Remote.{Call, OwnerMachine, OwnerCluster, Env, create_vm, success}
use cluster_api_provider_vmw.Program.{
  State, M, done, ◌>>=◌, no_requeue, requeue, millisecond, second,
}
use cluster_api_provider_vmw.Program.Yields.{Yields, Yields-bind, Yields-get, Yields-none}
use cluster_api_provider_vmw.Client.{new_vd_client}
use cluster_api_provider_vmw.Client.Starts.{IsConfigured}
use cluster_api_provider_vmw.Machine.Create.{reconcile_create_vm, provider_id_of}
use cluster_api_provider_vmw.Machine.Normal.{may_start}
use cluster_api_provider_vmw.Machine.Reconcile.{handle}
use cluster_api_provider_vmw.Machine.Life.Ready.{IsPlain, Stage, Serves}
use cluster_api_provider_vmw.Machine.Life.Ready.Steps.{To, Comes, Yields-To}
use cluster_api_provider_vmw.Machine.Life.Ready.Last.{IsUp}
use cluster_api_provider_vmw.Machine.Life.Ready.Runs.{
  client-Yields, dispatch-Yields, update_refresh, update_start, handle_linked,
}

-- The spec with the links to the virtual machine.
abbrev pub linked : String → VdMachineSpec → VdMachineSpec
linked vm_id spec = record spec { provider_id = some (provider_id_of vm_id); vm_id = some vm_id }

-- The service makes a virtual machine and says what it has.
abbrev pub Creates : Env → String → Type 0
Creates E vm_id =
    (calls : List Call) (name template : String)
    → (cpu : Int32) × (memory : Int32) × (E.answer calls (create_vm name template)
        ≡ success (record { id = vm_id; processors = some cpu; memory = some memory }))

linked-IsPlain :
    (vm_id : String) (spec : VdMachineSpec) (network : VdNetwork)
    → IsPlain spec network
    → IsPlain (linked vm_id spec) network
linked-IsPlain vm_id spec network plain = record {
  networked = plain.networked;
  no_adapters = plain.no_adapters;
  no_pools = plain.no_pools;
  ipv4_only = plain.ipv4_only;
  no_folders = plain.no_folders;
  no_vnc = plain.no_vnc;
}

-- What is known of a step from where it ends.
Comes-of :
    {A : Type 0} (P : VdMachine → Type 0) (m : M VdMachine A) (a : A) (s : State VdMachine)
    → Yields (To a P) m s
    → Comes a P (m s)
Comes-of P m a s y =
    (ap (λ r. r.0) y.same ∙ ap done y.holds.0, subst (λ r. P r.1.object) (sym y.same) y.holds.1)

module _ (E : Env) (vm_id : String) (network : VdNetwork) (spec : VdMachineSpec) where
  create_lem :
      (state adapters vnc provided : Bool) (s : State VdMachine)
      → Creates E vm_id
      → Stage spec state adapters vnc provided s.object
      → Comes no_requeue
          (Stage (linked vm_id spec) state adapters vnc provided)
          (reconcile_create_vm E s)
  unfolding reconcile_create_vm ◌>>=◌
  create_lem state adapters vnc provided s creates h =
      let a = creates s.calls s.object.meta.name s.object.spec.template_id in ground arith

  handle_new :
      (state adapters vnc provided : Bool) (cluster : OwnerCluster) (owner : OwnerMachine)
      (url username password : String) (s : State VdMachine)
      → Creates E vm_id
      → IsConfigured E url username password
      → may_start cluster owner ≡ true
      → spec.vm_id ≡ none
      → Stage spec state adapters vnc provided s.object
      → Comes no_requeue
          (Stage (linked vm_id spec) state adapters vnc provided)
          (handle E cluster owner s)
  unfolding handle
  handle_new state adapters vnc provided cluster owner url username password s creates configured
        ready fresh h =
      let unlinked = λ (t : State VdMachine) (q : t.object.spec ≡ spec).
        ap (λ (x : VdMachineSpec). x.vm_id) q ∙ fresh in
      Comes-of (Stage (linked vm_id spec) state adapters vnc provided) (handle E cluster owner)
        no_requeue s
        (Yields-bind (new_vd_client E) _ s
          (client-Yields E spec state adapters vnc provided url username password s configured h)
          λ _ t l. Yields-get _ t (
            Yields-none t.object.spec.vm_id _ _ t (unlinked t l.0) (
              dispatch-Yields E spec state adapters vnc provided cluster owner url username password
                t configured ready l
                λ u n. Yields-none u.object.spec.vm_id _ _ u (unlinked u n.0) (
                  Yields-To _ (reconcile_create_vm E) no_requeue u
                    (create_lem state adapters vnc provided u creates n)))))

  -- A machine that is new to the controller comes up in three runs of the handler. The conditions:
  --   the machine is not being deleted and has no virtual machine, its status has no adapters, VNC,
  --   shared folders or addresses, and its bootstrap data is not marked as provided;
  --   its spec has a network, asks for no adapters, folders, VNC or addresses from a pool, and each
  --   of its ethernets has dhcp6 set to false;
  --   the cluster is provisioned, the owner names a secret, and the environment variables are set;
  --   each call of the service for the virtual machine succeeds: it makes the virtual machine and
  --   says what hardware it has, repeats the hardware that it is told to set, and always tells the
  --   same devices with their addresses, at least one device and not more than there are ethernets
  --   in the spec, with at least as many IPv4 addresses as there are ethernets;
  --   each patch is stored, each secret that is read has a value, and each address that is asked of
  --   the Kubernetes API, as it is asked for every ethernet, is not found.
  -- Then no run ends in an error. The first one notes the virtual machine, the second one asks to be
  -- run again at once, and after the third one, which asks for another in ten seconds, the machine
  -- is ready and provisioned, is marked as given its bootstrap data, and has the IPv4 addresses of
  -- the devices.
  pub handle-ready :
      (cluster : OwnerCluster) (owner : OwnerMachine) (secret url username password : String)
      (state : Bool) (s : State VdMachine) (serves : Serves E vm_id network)
      → IsPlain spec network
      → Creates E vm_id
      → IsConfigured E url username password
      → may_start cluster owner ≡ true
      → owner.data_secret_name ≡ some secret
      → spec.vm_id ≡ none
      → Stage spec state false false false s.object
      → (let s1 : State VdMachine = (handle E cluster owner s).1 in
          let s2 : State VdMachine = (handle E cluster owner s1).1 in
          ((handle E cluster owner s).0 ≡ done no_requeue)
          × (s1.object.spec ≡ linked vm_id spec)
          × ((handle E cluster owner s1).0 ≡ done (requeue millisecond))
          × Comes
              (requeue (10 * second))
              (IsUp E vm_id network (linked vm_id spec) (serves.nic ∷ serves.nics))
              (handle E cluster owner s2))
  handle-ready cluster owner secret url username password state s serves plain creates configured
        ready named fresh h =
      let s1 : State VdMachine = (handle E cluster owner s).1 in
      let s2 : State VdMachine = (handle E cluster owner s1).1 in
      let spec' = linked vm_id spec in
      let plain' = linked-IsPlain vm_id spec network plain in
      let a =
        handle_new state false false false cluster owner url username password s creates configured
          ready fresh h in
      let b =
        Comes-of (Stage spec' true true true false) (handle E cluster owner) (requeue millisecond)
          s1
          (handle_linked E vm_id network spec' owner state false false false cluster url username
            password s1 serves configured ready refl a.1
            λ t k. update_refresh E vm_id network spec' owner false t serves plain' k) in
      let c =
        Comes-of (IsUp E vm_id network spec' (serves.nic ∷ serves.nics)) (handle E cluster owner)
          (requeue (10 * second)) s2
          (handle_linked E vm_id network spec' owner true true true false cluster url username
            password s2 serves configured ready refl b.1
            λ t k.
              update_start E vm_id network spec' owner secret (provider_id_of vm_id) t serves plain'
                named refl k) in
      (a.0, a.1.0, b.0, c)
