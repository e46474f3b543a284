-- ===== src/Commands/Config.antt =====
-- calicoctl/commands/config.go: the configuration options and the command that sets, unsets and shows
-- them.
pub mod Laws
pub mod Unset
pub mod Inherited
use operations_calico_contai.Base.{
  String, ◌<>◌, Bool, true, false, Option, none, some, List, ◌==◌, if◌then◌else◌,
}
use operations_calico_contai.Base.Text.{to_lower}
use operations_calico_contai.Base.Result.{Error, Result, ok, err, message, other}
use operations_calico_contai.Base.Proc.{Proc, pure, exit, lift, call, print, println, ◌>>=◌, ◌>>◌}
use operations_calico_contai.Args.{Args, arg_string_or_blank, must_string, must_bool}
use operations_calico_contai.Platform.{Platform}
use operations_calico_contai.ClientManager.{new_client}
use operations_calico_contai.Commands.Usage.{Parsed, with_arguments}

-- `client.ConfigLocation`
pub data ConfigLocation : Type 0 where
  nowhere at_node at_global : ConfigLocation

-- `client.ConfigInterface`, its default values, and the AS numbers of numorstring, all of
-- libcalico-go.
pub record ConfigInterface (S : Type 0) : Type 1 where
  pub AsNumber : Type 0
  pub set_global_log_level : String → S → Option Error × S
  pub get_global_log_level : S → Result String × S
  pub set_node_log_level : String → String → S → Option Error × S
  pub set_node_log_level_use_global : String → S → Option Error × S
  pub get_node_log_level : String → S → Result (String × ConfigLocation) × S
  pub set_node_to_node_mesh : Bool → S → Option Error × S
  pub get_node_to_node_mesh : S → Result Bool × S
  pub set_global_ipip : Bool → S → Option Error × S
  pub get_global_ipip : S → Result Bool × S
  pub set_global_as_number : AsNumber → S → Option Error × S
  pub get_global_as_number : S → Result AsNumber × S
  pub as_number_from_string : String → Result AsNumber
  pub show_as_number : AsNumber → String
  pub default_log_level : String
  pub default_node_to_node_mesh : Bool
  pub default_ipip : Bool
  pub default_as_number : AsNumber

-- configType. The methods return an error or none.
pub record ConfigType (S : Type 0) : Type 0 where
  pub set : String → String → Proc S (Option Error)
  pub unset : String → Proc S (Option Error)
  pub get : String → Proc S (Option Error)

abbrev pub no_node : Error
no_node = other "--node should not be specified"

abbrev pub show_switch : Bool → String
show_switch true = "on"
show_switch false = "off"

abbrev pub show_level : String × ConfigLocation → String
show_level (level, at_global) = level <> " (inherited from global)"
show_level (level, _) = level

module _ {S : Type 0} where
  abbrev fails : Error → Proc S (Option Error)
  fails e = pure (some e)

  -- The guard of the options that no node has a value of its own for.
  unfoldable pub globally : String → Proc S (Option Error) → Proc S (Option Error)
  globally node m = if node == "" then m else fails no_node

  -- What the getters print: nothing if the client fails.
  unfoldable pub show_result : {A : Type 0} → (A → String) → Result A → Proc S (Option Error)
  show_result show (err e) = fails e
  show_result show (ok a) = do println (show a); pure none

  -- The switch on the value of an option that is on or off.
  unfoldable pub set_switch : (Bool → S → Option Error × S) → String → Proc S (Option Error)
  set_switch set value =
      if value == "on"
      then call (set true)
      else if value == "off"
      then call (set false)
      else fails (other ("invalid value '" <> value <> "'"))

  module _ (c : ConfigInterface S) where
    unfoldable pub loglevel : ConfigType S
    unfolding show_result
    loglevel = record {
      set = λ value node.
          if node == ""
          then call (c.set_global_log_level value)
          else call (c.set_node_log_level node value);
      unset = λ node.
          if node == ""
          then call (c.set_global_log_level c.default_log_level)
          else call (c.set_node_log_level_use_global node);
      get = λ node.
          if node == ""
          then (do
            level ← call c.get_global_log_level
            show_result (λ s. show_level (s, nowhere)) level)
          else (do level ← call (c.get_node_log_level node); show_result show_level level);
    }

    unfoldable pub nodemesh : ConfigType S
    unfolding show_result set_switch globally
    nodemesh = record {
      set = λ value node. globally node (set_switch c.set_node_to_node_mesh value);
      unset = λ node. globally node (call (c.set_node_to_node_mesh c.default_node_to_node_mesh));
      get = λ node.
          globally node
            (do enabled ← call c.get_node_to_node_mesh; show_result show_switch enabled);
    }

    unfoldable pub ipip : ConfigType S
    unfolding show_result set_switch globally
    ipip = record {
      set = λ value node. globally node (set_switch c.set_global_ipip value);
      unset = λ node. globally node (call (c.set_global_ipip c.default_ipip));
      get = λ node.
          globally node (do enabled ← call c.get_global_ipip; show_result show_switch enabled);
    }

    unfoldable pub set_as_number : String → Proc S (Option Error)
    set_as_number value = elim (c.as_number_from_string value) [
      | err _ ↦ fails (other "the supplied AS number is not valid")
      | ok asn ↦ call (c.set_global_as_number asn)
    ]

    unfoldable pub asnum : ConfigType S
    unfolding show_result set_as_number globally
    asnum = record {
      set = λ value node. globally node (set_as_number value);
      unset = λ node. globally node (call (c.set_global_as_number c.default_as_number));
      get = λ node.
          globally node (do asn ← call c.get_global_as_number; show_result c.show_as_number asn);
    }

    -- The switch on the name of the option.
    unfoldable pub config_type : String → Option (ConfigType S)
    unfolding to_lower
    config_type name =
        let lower = to_lower name in
        if lower == "loglevel"
        then some loglevel
        else if lower == "nodetonodemesh"
        then some nodemesh
        else if lower == "asnumber"
        then some asnum
        else if lower == "ipip"
        then some ipip
        else none

module _ (p : Platform) (config_client : p.Client → ConfigInterface p.Store) where
  -- The test on the error.
  unfoldable pub finish : Option Error → Proc p.Store (Unit {0})
  finish none = pure tt
  finish (some e) = do print ("Error executing command: " <> message e <> "\n"); exit 1

  -- The choice between set, unset and get.
  unfoldable pub dispatch :
      ConfigType p.Store → Args → String → String → Proc p.Store (Option Error)
  dispatch ct args value node = do
    is_set ← lift (must_bool args "set")
    elim is_set [
      | true ↦ ct.set value node
      | false ↦ do
        is_unset ← lift (must_bool args "unset")
        elim is_unset [ true ↦ ct.unset node | false ↦ ct.get node ]
    ]

  unfoldable pub configure : Args → Proc p.Store (Unit {0})
  unfolding finish dispatch
  configure args = do
    cf ← lift (must_string args "--config")
    elim (new_client p cf) [
      | err e ↦ do println (message e); exit 1
      | ok client ↦ do
        node ← lift (arg_string_or_blank args "--node")
        name ← lift (arg_string_or_blank args "<NAME>")
        value ← lift (arg_string_or_blank args "<VALUE>")
        elim (config_type (config_client client) name) [
          | none ↦ do
            print ("Error executing command: unrecognised config name '" <> name <> "'\n")
            exit 1
          | some ct ↦ do e ← dispatch ct args value node; finish e
        ]
    ]

  -- Config
  unfoldable pub config : List String → Parsed → Proc p.Store (Unit {0})
  unfolding with_arguments configure
  config argv answer = with_arguments argv answer configure
