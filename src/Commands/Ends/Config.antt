-- ===== src/Commands/Ends/Config.antt =====
-- The configuration command.
use operations_calico_contai.Base.{
  String, ◌<>◌, refl, Option, none, some, Bool, true, false, arith, ◌==◌, if◌then◌else◌,
}
use operations_calico_contai.Base.Dict.{lookup}
use operations_calico_contai.Base.Text.{to_lower}
use operations_calico_contai.Base.Result.{Error, Result, ok, err, message}
use operations_calico_contai.Base.Proc.{Proc, lift, print, println, exit, ◌>>=◌, ◌>>◌}
use operations_calico_contai.Base.Proc.Ends.{Ends, EndsWell, bind-EndsWell, lift-EndsWell}
use operations_calico_contai.Args.{Args, must_string, must_bool, arg_string_or_blank}
use operations_calico_contai.Args.Reads.{must_string-Ends, must_bool-Ends, arg_string_or_blank-Ends}
use operations_calico_contai.Platform.{Platform}
use operations_calico_contai.ClientManager.{new_client}
use operations_calico_contai.Commands.Config.{
  ConfigInterface, ConfigType, loglevel, nodemesh, ipip, asnum, config_type, dispatch, finish,
  configure,
}
use operations_calico_contai.Commands.Usage.Texts.Intro.{datastore_intro}
use operations_calico_contai.Commands.Usage.Texts.Config.{config_lines}
use operations_calico_contai.Commands.Usage.Declared.{declared}
use operations_calico_contai.Commands.Usage.Follows.{Follows, has_kind}

module _ {S : Type 0} where
  -- No method of the option panics.
  record IsSafe (ct : ConfigType S) : Type 0 where
    set : (value node : String) → EndsWell (ct.set value node)
    unset : (node : String) → EndsWell (ct.unset node)
    get : (node : String) → EndsWell (ct.get node)

  abbrev EachIsSafe : Option (ConfigType S) → Type 0
  EachIsSafe none = Unit
  EachIsSafe (some ct) = IsSafe ct

  if-EachIsSafe :
      (b : Bool) (ct : ConfigType S) (rest : Option (ConfigType S))
      → IsSafe ct
      → EachIsSafe rest
      → EachIsSafe (if b then some ct else rest)
  if-EachIsSafe true ct rest safe others = safe
  if-EachIsSafe false ct rest safe others = others

  module _ (c : ConfigInterface S) where
    loglevel-IsSafe : IsSafe (loglevel c)
    unfolding loglevel
    loglevel-IsSafe = record {
      set = λ value node w. ground arith;
      unset = λ node w. ground arith;
      get = λ node w. ground arith;
    }

    nodemesh-IsSafe : IsSafe (nodemesh c)
    unfolding nodemesh
    nodemesh-IsSafe = record {
      set = λ value node w. ground arith;
      unset = λ node w. ground arith;
      get = λ node w. ground arith;
    }

    ipip-IsSafe : IsSafe (ipip c)
    unfolding ipip
    ipip-IsSafe = record {
      set = λ value node w. ground arith;
      unset = λ node w. ground arith;
      get = λ node w. ground arith;
    }

    asnum-IsSafe : IsSafe (asnum c)
    unfolding asnum
    asnum-IsSafe = record {
      set = λ value node w. ground arith;
      unset = λ node w. ground arith;
      get = λ node w. ground arith;
    }

    config_type-EachIsSafe : (name : String) → EachIsSafe (config_type c name)
    unfolding config_type
    config_type-EachIsSafe name =
        let lower = to_lower name in
        let last = if lower == "ipip" then some (ipip c) else none in
        let third = if lower == "asnumber" then some (asnum c) else last in
        let second = if lower == "nodetonodemesh" then some (nodemesh c) else third in
        if-EachIsSafe (lower == "loglevel") (loglevel c) second loglevel-IsSafe (
          if-EachIsSafe (lower == "nodetonodemesh") (nodemesh c) third nodemesh-IsSafe (
            if-EachIsSafe (lower == "asnumber") (asnum c) last asnum-IsSafe
              (if-EachIsSafe (lower == "ipip") (ipip c) none ipip-IsSafe tt)))

module _ (p : Platform) (config_client : p.Client → ConfigInterface p.Store) (args : Args) where
  finish-EndsWell : (e : Option Error) → EndsWell (finish p config_client e)
  unfolding finish
  finish-EndsWell none w = tt
  finish-EndsWell (some e) w = refl

  -- The parts of the command after the choice of the option, and after the connection.
  abbrev run_option :
      Option (ConfigType p.Store) → String → String → String → Proc p.Store (Unit {0})
  run_option o name value node = elim o [
    | none ↦ do
      print ("Error executing command: unrecognised config name '" <> name <> "'\n")
      exit 1
    | some ct ↦ do e ← dispatch p config_client ct args value node; finish p config_client e
  ]

  abbrev from_client : Result p.Client → Proc p.Store (Unit {0})
  from_client r = elim r [
    | err e ↦ do println (message e); exit 1
    | ok client ↦ do
      node ← lift (arg_string_or_blank args "--node")
      name ← lift (arg_string_or_blank args "<NAME>")
      value ← lift (arg_string_or_blank args "<VALUE>")
      run_option (config_type (config_client client) name) name value node
  ]

  -- The arguments that the usage text declares.
  record Declares : Type 0 where
    set : Ends (must_bool args "set")
    unset : Ends (must_bool args "unset")
    config : Ends (must_string args "--config")
    node : Ends (arg_string_or_blank args "--node")
    name : Ends (arg_string_or_blank args "<NAME>")
    value : Ends (arg_string_or_blank args "<VALUE>")

  follows-Declares : Follows args config_lines → Declares
  unfolding declared lookup config_lines datastore_intro
  follows-Declares f = record {
    set = must_bool-Ends args "set" (has_kind f "set" refl);
    unset = must_bool-Ends args "unset" (has_kind f "unset" refl);
    config = must_string-Ends args "--config" (has_kind f "--config" refl);
    node = arg_string_or_blank-Ends args "--node" (has_kind f "--node" refl);
    name = arg_string_or_blank-Ends args "<NAME>" (has_kind f "<NAME>" refl);
    value = arg_string_or_blank-Ends args "<VALUE>" (has_kind f "<VALUE>" refl);
  }

  module _ (d : Declares) where
    dispatch-EndsWell :
        (ct : ConfigType p.Store) (value node : String)
        → IsSafe ct
        → EndsWell (dispatch p config_client ct args value node)
    unfolding dispatch
    dispatch-EndsWell ct value node safe w =
        ground (arith, d.set, d.unset, safe.set value node w, safe.unset node w, safe.get node w)

    run-EndsWell :
        (o : Option (ConfigType p.Store)) (name value node : String)
        → EachIsSafe o
        → EndsWell (run_option o name value node)
    run-EndsWell none name value node safe = λ w. refl
    run-EndsWell (some ct) name value node safe =
        bind-EndsWell (dispatch p config_client ct args value node) (finish p config_client)
          (dispatch-EndsWell ct value node safe) finish-EndsWell

    connected-EndsWell : (r : Result p.Client) → EndsWell (from_client r)
    connected-EndsWell (err e) = λ w. refl
    connected-EndsWell (ok client) =
        bind-EndsWell (lift (arg_string_or_blank args "--node")) _ (lift-EndsWell _ d.node) λ node.
          bind-EndsWell (lift (arg_string_or_blank args "<NAME>")) _ (lift-EndsWell _ d.name)
            λ name.
              bind-EndsWell (lift (arg_string_or_blank args "<VALUE>")) _ (lift-EndsWell _ d.value)
                λ value.
                  run-EndsWell (config_type (config_client client) name) name value node
                    (config_type-EachIsSafe (config_client client) name)

    configure-EndsWell : EndsWell (configure p config_client args)
    unfolding configure
    configure-EndsWell =
        bind-EndsWell (lift (must_string args "--config")) _ (lift-EndsWell _ d.config)
          λ cf. connected-EndsWell (new_client p cf)

  -- With the arguments that docopt gives for its usage text.
  pub configure-EndsWell_for : Follows args config_lines → EndsWell (configure p config_client args)
  configure-EndsWell_for f = configure-EndsWell (follows-Declares f)
