-- ===== src/Resources/Arguments/Laws.antt =====
-- Which resource the arguments name.
use mathlib.Core.Path.{subst}
use operations_calico_contai.Base.{
  String, ◌<>◌, ◌≡◌, ◌∙◌, sym, ◌⊎◌, refl, inl, inr, Option, none, some, ◌||◌, ◌==◌, eq_iff, arith,
  Bool-cases, if◌then◌else◌,
}
use operations_calico_contai.Base.Text.{to_lower}
use operations_calico_contai.Base.Result
use operations_calico_contai.Base.Result.{Result, ok, err, other}
use operations_calico_contai.Platform.{
  Platform, ResourceKind, element, node, host_endpoint, workload_endpoint, profile, policy, ip_pool,
  bgp_peer, HasConstructors, HasFields, KeepsType, element_metadata,
}
use operations_calico_contai.Manager.{Resource, struct}
use operations_calico_contai.Resources.Arguments.{
  Identifiers, kind_case, scope_case, build, resource_for,
}

abbrev pub singular : ResourceKind → String
singular node = "node"
singular host_endpoint = "hostendpoint"
singular workload_endpoint = "workloadendpoint"
singular profile = "profile"
singular policy = "policy"
singular ip_pool = "ippool"
singular bgp_peer = "bgppeer"

abbrev pub plural : ResourceKind → String
plural node = "nodes"
plural host_endpoint = "hostendpoints"
plural workload_endpoint = "workloadendpoints"
plural profile = "profiles"
plural policy = "policies"
plural ip_pool = "ippools"
plural bgp_peer = "bgppeers"

abbrev pub IsNamed : String → ResourceKind → Type 0
IsNamed s k = (s ≡ singular k) ⊎ (s ≡ plural k)

one_case :
    (s : String) (k k' : ResourceKind) (rest : Option ResourceKind)
    → (if s == singular k || s == plural k then some k else rest) ≡ some k'
    → ((k ≡ k') × IsNamed s k) ⊎ (rest ≡ some k')
one_case s k k' rest h = ground (arith, eq_iff s (singular k), eq_iff s (plural k))

next_case :
    (s : String) (k k' : ResourceKind) (rest : Option ResourceKind)
    → (rest ≡ some k' → IsNamed s k')
    → (if s == singular k || s == plural k then some k else rest) ≡ some k'
    → IsNamed s k'
next_case s k k' rest later h = elim (one_case s k k' rest h) [
  | inl (same, named) ↦ subst (IsNamed s) same named
  | inr h' ↦ later h'
]

-- The names of a kind are its singular and its plural, and no others.
kind_case-names : (s : String) (k : ResourceKind) → kind_case s ≡ some k → IsNamed s k
unfolding kind_case
kind_case-names s k = next_case s node k _ (
    next_case s host_endpoint k _ (
      next_case s workload_endpoint k _ (
        next_case s profile k _ (
          next_case s policy k _
            (next_case s ip_pool k _ (next_case s bgp_peer k none (λ e. cc)))))))

kind_case-singular : (k : ResourceKind) → kind_case (singular k) ≡ some k
unfolding kind_case
kind_case-singular node = refl
kind_case-singular k = refl

kind_case-plural : (k : ResourceKind) → kind_case (plural k) ≡ some k
unfolding kind_case
kind_case-plural node = refl
kind_case-plural k = refl

kind_case-named : (s : String) (k : ResourceKind) → IsNamed s k → kind_case s ≡ some k
kind_case-named s k (inl e) = rw e (kind_case-singular k)
kind_case-named s k (inr e) = rw e (kind_case-plural k)

module _ (p : Platform) (kind : String) (i : Identifiers) where
  -- A text whose lower case is the singular or the plural of a kind gives what is built for
  -- that kind, as a struct.
  pub resource_for-named :
      (k : ResourceKind)
      → IsNamed (to_lower kind) k
      → resource_for p kind i ≡ Result.map struct (build p k i)
  unfolding resource_for
  resource_for-named k named = rw (kind_case-named (to_lower kind) k named, resource_for)

  unsupported :
      (o : Option ResourceKind)
      → kind_case (to_lower kind) ≡ o
      → ((k : ResourceKind) → ¬ IsNamed (to_lower kind) k)
      → resource_for p kind i ≡ err (other ("Resource type '" <> kind <> "' is not supported"))
  unfolding resource_for
  unsupported none e h = rw (e, resource_for)
  unsupported (some k) e h = absurd (h k (kind_case-names (to_lower kind) k e))

  -- A text whose lower case is neither the singular nor the plural of any kind is an error
  -- that quotes it as it was given.
  pub resource_for-unsupported :
      ((k : ResourceKind) → ¬ IsNamed (to_lower kind) k)
      → resource_for p kind i ≡ err (other ("Resource type '" <> kind <> "' is not supported"))
  resource_for-unsupported h = unsupported (kind_case (to_lower kind)) refl h

module _ {p : Platform} (c : HasConstructors p) (f : HasFields p) where
  -- The struct has the type and the type metadata of the kind.
  abbrev pub IsOf : ResourceKind → p.Object → Type 0
  IsOf k o = (p.type_metadata o ≡ element_metadata k) × (p.struct_type o ≡ element k)

  abbrev OkIsOf : ResourceKind → Result p.Object → Type 0
  OkIsOf k (ok o) = IsOf k o
  OkIsOf k (err e) = Unit

  new-IsOf : (k : ResourceKind) → IsOf k (p.new (element k))
  new-IsOf k = (c.metadata_of_element k, c.type_of_new (element k))

  set-IsOf :
      (k : ResourceKind) (g : p.Object → p.Object) (o : p.Object)
      → KeepsType p g
      → IsOf k o
      → IsOf k (g o)
  set-IsOf k g o keeps (m, t) = ((keeps o).0 ∙ m, (keeps o).1 ∙ t)

  map-IsOf :
      {A : Type 0} (k : ResourceKind) (g : A → p.Object) (r : Result A)
      → ((a : A) → IsOf k (g a))
      → OkIsOf k (Result.map g r)
  map-IsOf k g (ok a) h = h a
  map-IsOf k g (err e) h = tt

  bind-IsOf :
      (k : ResourceKind) (g : p.Object → Result p.Object) (r : Result p.Object)
      → OkIsOf k r
      → ((o : p.Object) → IsOf k o → OkIsOf k (g o))
      → OkIsOf k (Result.◌>>=◌ r g)
  bind-IsOf k g (ok o) h later = later o h
  bind-IsOf k g (err e) h later = tt

  peer_IsOf :
      (i : Identifiers)
      → OkIsOf bgp_peer (
          if i.name == ""
          then ok (p.new (element bgp_peer))
          else Result.map
              (λ ip. p.set_peer_ip ip (p.new (element bgp_peer)))
              (p.unmarshal_ip i.name))
  peer_IsOf i = elim (Bool-cases (i.name == "")) [
    | inl blank ↦ rw blank (new-IsOf bgp_peer)
    | inr named ↦ rw named (
        map-IsOf bgp_peer _ (p.unmarshal_ip i.name)
          (λ ip. set-IsOf bgp_peer _ _ (f.peer_ip ip) (new-IsOf bgp_peer)))
  ]

  build-IsOf : (k : ResourceKind) (i : Identifiers) → OkIsOf k (build p k i)
  unfolding build
  build-IsOf node i = set-IsOf node _ _ (f.name i.name) (new-IsOf node)
  build-IsOf host_endpoint i =
      set-IsOf host_endpoint _ _ (f.node i.on_node)
        (set-IsOf host_endpoint _ _ (f.name i.name) (new-IsOf host_endpoint))
  build-IsOf workload_endpoint i = set-IsOf workload_endpoint _ _ (f.node i.on_node) (
      set-IsOf workload_endpoint _ _ (f.workload i.workload) (
        set-IsOf workload_endpoint _ _ (f.orchestrator i.orchestrator)
          (set-IsOf workload_endpoint _ _ (f.name i.name) (new-IsOf workload_endpoint))))
  build-IsOf profile i = set-IsOf profile _ _ (f.name i.name) (new-IsOf profile)
  build-IsOf policy i = set-IsOf policy _ _ (f.name i.name) (new-IsOf policy)
  build-IsOf ip_pool i = elim (Bool-cases (i.name == "")) [
    | inl blank ↦ rw blank (new-IsOf ip_pool)
    | inr named ↦ rw named (
        map-IsOf ip_pool _ (p.parse_cidr i.name)
          (λ cidr. set-IsOf ip_pool _ _ (f.cidr cidr) (new-IsOf ip_pool)))
  ]
  build-IsOf bgp_peer i = bind-IsOf bgp_peer _ _ (peer_IsOf i) λ peer is_peer.
      map-IsOf bgp_peer _ (scope_case i.scope)
        λ s. set-IsOf bgp_peer _ _ (f.scope s) (set-IsOf bgp_peer _ _ (f.node i.on_node) is_peer)

  ok_struct :
      (kind : String) (k : ResourceKind)
      → IsNamed (to_lower kind) k
      → (b : Result p.Object) (r : Resource p.Object) → OkIsOf k b
      → Result.map struct b ≡ ok r
      → (k : ResourceKind) × (o : p.Object) × IsNamed (to_lower kind) k × (r ≡ struct o) × IsOf k o
  ok_struct kind k named (ok o) r h e = (k, o, named, ground arith, h)
  ok_struct kind k named (err x) r h e = cc

  supported :
      (kind : String) (i : Identifiers) (r : Resource p.Object) (o : Option ResourceKind)
      → kind_case (to_lower kind) ≡ o
      → resource_for p kind i ≡ ok r
      → (k : ResourceKind) × (o : p.Object) × IsNamed (to_lower kind) k × (r ≡ struct o) × IsOf k o
  unfolding resource_for
  supported kind i r none e h = cc (e, h)
  supported kind i r (some k) e h =
      let named = kind_case-names (to_lower kind) k e in
      ok_struct kind k named (build p k i) r (build-IsOf k i)
        (sym (resource_for-named p kind i k named) ∙ h)

  -- Where the API's constructors give a struct its type and the assignments to its fields keep
  -- it, a resource that is made from a kind and identifiers is a struct, not a pointer, with
  -- the type and the type metadata of a kind that the text names.
  pub resource_for-IsOf :
      (kind : String) (i : Identifiers) (r : Resource p.Object)
      → resource_for p kind i ≡ ok r
      → (k : ResourceKind) × (o : p.Object) × IsNamed (to_lower kind) k × (r ≡ struct o) × IsOf k o
  resource_for-IsOf kind i r h = supported kind i r (kind_case (to_lower kind)) refl h
