-- ===== src/Commands/Ipam.antt =====
-- calicoctl/commands/ipam: the release of an IP address, and its attributes.
pub mod Laws
use operations_calico_contai.Base.{ℕ, zero, suc, String, ◌<>◌, Option, none, some, List, [], ◌∷◌}
use operations_calico_contai.Base.Result.{Error, Result, ok, err, message}
use operations_calico_contai.Base.Proc.{Proc, pure, exit, lift, call, print, println, ◌>>=◌, ◌>>◌}
use operations_calico_contai.Args.{Args, must_string}
use operations_calico_contai.Args.Validate.{Parsers, validate_ip}
use operations_calico_contai.Platform.{Platform}
use operations_calico_contai.ClientManager.{new_client}
use operations_calico_contai.Commands.Usage.{Parsed, with_arguments}

-- `client.IPAM()`: ReleaseIPs returns the addresses that were not assigned, and
-- GetAssignmentAttributes the attributes of an address, with their text.
pub record IpamInterface (S : Type 0) (n : Parsers) : Type 0 where
  pub release_ips : List n.Ip → S → Result (List n.Ip) × S
  pub get_assignment_attributes : n.Ip → S → Result (List (String × String)) × S
  pub show_attributes : List (String × String) → String

module _ (p : Platform) (n : Parsers) (ipam : p.Client → IpamInterface p.Store n) where
  -- The client, or the end of the process.
  unfoldable pub connect : Args → Proc p.Store p.Client
  connect args = do
    cf ← lift (must_string args "--config")
    elim (new_client p cf) [ err e ↦ do println (message e); exit 1 | ok client ↦ pure client ]

  -- The address that is passed.
  unfoldable pub passed_ip : Args → Proc p.Store n.Ip
  unfolding validate_ip
  passed_ip args = do text ← lift (must_string args "--ip"); validate_ip n text

  unfoldable pub report_release : n.Ip → Result (List n.Ip) → Proc p.Store (Unit {0})
  report_release ip (err e) = do print ("Error: " <> message e <> "\n"); exit 1
  report_release ip (ok (_ ∷ _)) = do
    print ("IP address " <> n.show_ip ip <> " is not assigned\n")
    exit 1
  report_release ip (ok []) = print ("Successfully released IP address " <> n.show_ip ip <> "\n")

  unfoldable pub release_ip : Args → Proc p.Store (Unit {0})
  unfolding connect passed_ip report_release
  release_ip args = do
    client ← connect args
    ip ← passed_ip args
    unallocated ← call ((ipam client).release_ips (ip ∷ []))
    report_release ip unallocated

  unfoldable pub report_attributes :
      IpamInterface p.Store n → n.Ip → Result (List (String × String)) → Proc p.Store (Unit {0})
  report_attributes i ip (err e) = println (message e)
  report_attributes i ip (ok (a ∷ attr)) = println (i.show_attributes (a ∷ attr))
  report_attributes i ip (ok []) = print ("No attributes defined for IP " <> n.show_ip ip <> "\n")

  unfoldable pub show_ip : Args → Proc p.Store (Unit {0})
  unfolding connect passed_ip report_attributes
  show_ip args = do
    client ← connect args
    ip ← passed_ip args
    attr ← call ((ipam client).get_assignment_attributes ip)
    report_attributes (ipam client) ip attr

  -- Release
  unfoldable pub release : List String → Parsed → Proc p.Store (Unit {0})
  unfolding with_arguments release_ip
  release argv answer = with_arguments argv answer release_ip

  -- Show
  unfoldable pub show : List String → Parsed → Proc p.Store (Unit {0})
  unfolding with_arguments show_ip
  show argv answer = with_arguments argv answer show_ip
