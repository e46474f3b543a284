-- ===== src/Args/Validate.antt =====
-- calicoctl/commands/argutils/validate.go
use operations_calico_contai.Base.{ℕ, String, ◌<>◌, Option, none, some}
use operations_calico_contai.Base.Result.{Result, ok, err}
use operations_calico_contai.Base.Proc.{Proc, pure, exit, print, ◌>>◌}

-- `net.ParseIP`, `cnet.IP` and the AS numbers of numorstring.
pub record Parsers : Type 1 where
  pub Ip : Type 0
  pub AsNumber : Type 0
  pub parse_ip : String → Option Ip
  pub version : Ip → ℕ
  pub show_ip : Ip → String
  pub as_number_from_string : String → Result AsNumber

module _ (n : Parsers) {S : Type 0} where
  -- ValidateIP
  unfoldable pub validate_ip : String → Proc S n.Ip
  validate_ip str = elim (n.parse_ip str) [
    | none ↦ do
      print ("Error executing command: invalid IP address specified: " <> str <> "\n")
      exit 1
    | some ip ↦ pure ip
  ]

  -- ValidateASNumber
  unfoldable pub validate_as_number : String → Proc S n.AsNumber
  validate_as_number str = elim (n.as_number_from_string str) [
    | err _ ↦ do
      print ("Error executing command: invalid AS Number specified: " <> str <> "\n")
      exit 1
    | ok asn ↦ pure asn
  ]
