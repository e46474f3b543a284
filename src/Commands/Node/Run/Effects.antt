-- ===== src/Commands/Node/Run/Effects.antt =====
-- What `node run` does to the host before it starts the container.
use operations_calico_contai.Base.{
  String, ◌<>◌, Bool, true, false, none, some, List, [], ◌∷◌, ◌==◌, if◌then◌else◌,
}
use operations_calico_contai.Base.Text.{join}
use operations_calico_contai.Base.Outcome.{returned}
use operations_calico_contai.Base.Proc.{Proc, pure, exit, call, print, println, ◌>>=◌, ◌>>◌}
use operations_calico_contai.Commands.Node.Host.{Host}

module _ {S : Type 0} (h : Host S) where
  -- runningInContainer
  unfoldable pub running_in_container : Bool
  running_in_container = if h.getenv "CALICO_CTL_CONTAINER" == "" then false else true

  abbrev pub modprobe : List String
  modprobe = "modprobe" ∷ "-a" ∷ "xt_set" ∷ "ip6_tables" ∷ []

  -- loadModules. A failure is logged and nothing else.
  unfoldable pub load_modules : Proc S (Unit {0})
  unfolding join
  load_modules = do
    print ("Running command to load modules: " <> join modprobe " " <> "\n")
    _ ← call (h.run modprobe)
    pure tt

  -- A file that has to be written.
  unfoldable pub must_write : String → String → String → Proc S (Unit {0})
  must_write path contents failed = do
    failure ← call (h.write_file path contents)
    elim failure [ none ↦ pure tt | some _ ↦ (do println failed; exit 1) ]

  -- setupIPForwarding
  unfoldable pub setup_ip_forwarding : Proc S (Unit {0})
  unfolding must_write
  setup_ip_forwarding = do
    println "Enabling IPv4 forwarding"
    must_write "/proc/sys/net/ipv4/ip_forward" "1" "ERROR: Could not enable ipv4 forwarding"
    has_ipv6 ← (λ w. (returned (h.stat "/proc/sys/net/ipv6" w.system), w))
    elim has_ipv6 [
      | false ↦ pure tt
      | true ↦ do
        println "Enabling IPv6 forwarding"
        must_write "/proc/sys/net/ipv6/conf/all/forwarding" "1"
            "ERROR: Could not enable ipv6 forwarding"
    ]

  -- setNFConntrackMax
  unfoldable pub set_nf_conntrack_max : Proc S (Unit {0})
  set_nf_conntrack_max = do
    println "Increasing conntrack limit"
    failure ← call (h.write_file "/proc/sys/net/netfilter/nf_conntrack_max" "1000000")
    elim failure [
      | none ↦ pure tt
      | some _ ↦ println "WARNING: Could not set nf_contrack_max. This may have an impact at scale."
    ]

  -- The calls of the three, where calicoctl is not in a container.
  unfoldable pub prepare_kernel : Proc S (Unit {0})
  unfolding load_modules setup_ip_forwarding set_nf_conntrack_max
  prepare_kernel = do load_modules; setup_ip_forwarding; set_nf_conntrack_max
