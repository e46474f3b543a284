-- ===== src/Commands/Ends/Node.antt =====
-- The commands on the node, but for status.
use operations_calico_contai.Base.{
  String, ◌≡◌, ◌≢◌, inr, refl, none, List, Bool, true, false, arith,
}
use operations_calico_contai.Base.Dict.{lookup}
use operations_calico_contai.Base.Proc.{lift}
use operations_calico_contai.Base.Proc.Ends.{Ends, EndsWell, bind-EndsWell, lift-EndsWell}
use operations_calico_contai.Args.{Args}
use operations_calico_contai.Args.Validate.{Parsers}
use operations_calico_contai.Platform.{Platform}
use operations_calico_contai.Commands.Node.Host.{Host}
use operations_calico_contai.Commands.Node.Docker.{docker_command}
use operations_calico_contai.Commands.Node.Run.{start, run_node}
use operations_calico_contai.Commands.Node.Run.Validation.{
  Settings, Backend, read_settings, validate, node_name, load_etcd,
}
use operations_calico_contai.Commands.Usage.Texts.Run.{run_lines}
use operations_calico_contai.Commands.Usage.Declared.{declared}
use operations_calico_contai.Commands.Usage.Follows.{Follows, has_kind}
use operations_calico_contai.Args.Laws.{
  IsText, IsFlag, arg_string_or_blank-eq, arg_bool_or_false-eq,
}

read_settings-Ends :
    (args : Args) (version : String) → Follows args (run_lines version) → Ends (read_settings args)
unfolding read_settings declared lookup run_lines
read_settings-Ends args version f =
    let texts = λ (name : String) (h : IsText args name). arg_string_or_blank-eq args name h in
    let flags = λ (name : String) (h : IsFlag args name). arg_bool_or_false-eq args name h in
    rw
      (
        texts "--ip" (has_kind f "--ip" refl),
        texts "--ip6" (has_kind f "--ip6" refl),
        texts "--log-dir" (inr (has_kind f "--log-dir" refl)),
        texts "--as" (has_kind f "--as" refl),
        texts "--node-image" (inr (has_kind f "--node-image" refl)),
        texts "--backend" (inr (has_kind f "--backend" refl)),
        flags "--dryrun" (inr (has_kind f "--dryrun" refl)),
        texts "--name" (has_kind f "--name" refl),
        flags "--no-default-ippools" (inr (has_kind f "--no-default-ippools" refl)),
        texts "--config" (inr (has_kind f "--config" refl)),
        read_settings,
      )
      tt

module _ (n : Parsers) {S : Type 0} where
  validate-EndsWell : (s : Settings) → EndsWell (validate n {S = S} s)
  unfolding validate
  validate-EndsWell s w = ground arith

node_name-EndsWell : {S : Type 0} (h : Host S) (s : Settings) → EndsWell (node_name h s)
unfolding node_name
node_name-EndsWell h s w = ground arith

load_etcd-EndsWell :
    (p : Platform) (backend : Backend p) (s : Settings)
    → ((cfg : p.ClientConfig) → backend.is_etcd cfg ≡ true → backend.etcd_config cfg ≢ none)
    → EndsWell (load_etcd p backend s)
unfolding load_etcd
load_etcd-EndsWell p backend s has w = grind (arith, has)

start-EndsWell :
    (p : Platform) (n : Parsers) (h : Host p.Store) (backend : Backend p) (dryrun : Bool)
    (cmd : List String)
    → EndsWell (start p n h backend dryrun cmd)
unfolding start
start-EndsWell p n h backend true cmd w = tt
start-EndsWell p n h backend false cmd w = ground arith

module _ (p : Platform) (n : Parsers) (h : Host p.Store) (backend : Backend p) (args : Args) where
  -- With the arguments that docopt gives for its usage text, where an etcd configuration is one.
  pub run_node-EndsWell :
      (version : String)
      → ((cfg : p.ClientConfig) → backend.is_etcd cfg ≡ true → backend.etcd_config cfg ≢ none)
      → Follows args (run_lines version)
      → EndsWell (run_node p n h backend args)
  unfolding run_node
  run_node-EndsWell version has f =
      bind-EndsWell (lift (read_settings args)) _
        (lift-EndsWell _ (read_settings-Ends args version f))
        λ s. bind-EndsWell (validate n s) _ (validate-EndsWell n s) λ _.
          bind-EndsWell (node_name h s) _ (node_name-EndsWell h s) λ name.
            bind-EndsWell (load_etcd p backend s) _ (load_etcd-EndsWell p backend s has)
              λ etcd. start-EndsWell p n h backend s.dryrun (docker_command h s name etcd)
