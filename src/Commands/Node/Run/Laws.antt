-- ===== src/Commands/Node/Run/Laws.antt =====
-- `node run`: the runs that leave the host as it is, and those that return.
use operations_calico_contai.Base.{
  ℕ, zero, suc, String, ◌≡◌, ◌≢◌, ◌⊎◌, inl, inr, refl, ap, ◌∙◌, Bool, true, false, List, arith,
}
use operations_calico_contai.Base.Outcome.{returned}
use operations_calico_contai.Base.Proc.{World, Proc, lift, ◌>>=◌, ◌>>◌}
use operations_calico_contai.Base.Proc.Quiet.{IsQuiet, continue-IsQuiet, bind-IsQuiet}
use operations_calico_contai.Args.{Args, arg_bool_or_false}
use operations_calico_contai.Args.Validate.{Parsers, validate_ip, validate_as_number}
use operations_calico_contai.Platform.{Platform}
use operations_calico_contai.Commands.Node.Host.{Host, enforce_root}
use operations_calico_contai.Commands.Node.Run.{start, run_node}
use operations_calico_contai.Commands.Node.Run.Validation.{
  Settings, Backend, read_settings, check_ip, check_as_number, check_backend, validate, node_name,
  load_etcd,
}
use operations_calico_contai.Commands.Node.Docker.{docker_command}

Uid-cases : (n : ℕ) → (n ≡ 0) ⊎ ((m : ℕ) × (n ≡ suc m))
Uid-cases zero = inl refl
Uid-cases (suc m) = inr (m, refl)

module _ (n : Parsers) {S : Type 0} where
  check_ip-IsQuiet : (option str : String) (v : ℕ) → IsQuiet (check_ip n {S = S} option str v)
  unfolding check_ip validate_ip
  check_ip-IsQuiet option str v w = ground arith

  check_as_number-IsQuiet : (str : String) → IsQuiet (check_as_number n {S = S} str)
  unfolding check_as_number validate_as_number
  check_as_number-IsQuiet str w = ground arith

  check_backend-IsQuiet : (str : String) → IsQuiet (check_backend n {S = S} str)
  unfolding check_backend
  check_backend-IsQuiet str w = ground arith

  validate-IsQuiet : (s : Settings) → IsQuiet (validate n {S = S} s)
  unfolding validate
  validate-IsQuiet s =
      let first = check_ip n "--ip" s.ipv4 4 in
      let second = check_ip n "--ip6" s.ipv6 6 in
      let third = check_as_number n s.as_number in
      let fourth = check_backend n s.backend in
      bind-IsQuiet first (λ _. second >> (third >> fourth)) (check_ip-IsQuiet "--ip" s.ipv4 4)
        λ _.
          bind-IsQuiet second (λ _. third >> fourth) (check_ip-IsQuiet "--ip6" s.ipv6 6)
            λ _.
              bind-IsQuiet third (λ _. fourth) (check_as_number-IsQuiet s.as_number)
                λ _. check_backend-IsQuiet s.backend

node_name-IsQuiet : {S : Type 0} (h : Host S) (s : Settings) → IsQuiet (node_name h s)
unfolding node_name
node_name-IsQuiet h s w = ground arith

load_etcd-IsQuiet :
    (p : Platform) (backend : Backend p) (s : Settings) → IsQuiet (load_etcd p backend s)
unfolding load_etcd
load_etcd-IsQuiet p backend s w = ground arith

read_settings-dryrun :
    (args : Args) {s : Settings}
    → read_settings args ≡ returned s
    → arg_bool_or_false args "--dryrun" ≡ returned s.dryrun
unfolding read_settings
read_settings-dryrun args h = ground arith

module _ (p : Platform) (n : Parsers) (h : Host p.Store) (backend : Backend p) where
  start-IsQuiet :
      (dryrun : Bool) (cmd : List String)
      → (dryrun ≡ true) ⊎ (h.uid ≢ 0)
      → IsQuiet (start p n h backend dryrun cmd)
  unfolding start enforce_root
  start-IsQuiet true cmd safe w = refl
  start-IsQuiet false cmd safe w = elim (Uid-cases h.uid) [
    | inl root ↦ elim safe [ inl dry ↦ ground arith | inr not_root ↦ absurd (not_root root) ]
    | inr (m, not_root) ↦ rw (not_root, start) refl
  ]

  from_name : Settings → String → Proc p.Store (Unit {0})
  from_name s name = do
    etcd ← load_etcd p backend s
    start p n h backend s.dryrun (docker_command h s name etcd)

  from_name-IsQuiet :
      (s : Settings) (name : String) → (s.dryrun ≡ true) ⊎ (h.uid ≢ 0) → IsQuiet (from_name s name)
  unfolding from_name
  from_name-IsQuiet s name safe =
      bind-IsQuiet (load_etcd p backend s)
        (λ etcd. start p n h backend s.dryrun (docker_command h s name etcd))
        (load_etcd-IsQuiet p backend s)
        (λ etcd. start-IsQuiet s.dryrun (docker_command h s name etcd) safe)

  run_settings : Settings → Proc p.Store (Unit {0})
  unfolding from_name
  run_settings s = validate n s >> (node_name h s >>= from_name s)

  run_settings-IsQuiet : (s : Settings) → (s.dryrun ≡ true) ⊎ (h.uid ≢ 0) → IsQuiet (run_settings s)
  unfolding run_settings
  run_settings-IsQuiet s safe =
      bind-IsQuiet (validate n s) (λ _. node_name h s >>= from_name s) (validate-IsQuiet n s)
        λ _.
          bind-IsQuiet (node_name h s) (from_name s) (node_name-IsQuiet h s)
            λ name. from_name-IsQuiet s name safe

  run_node-settings :
      (args : Args) (w : World p.Store)
      → run_node p n h backend args w ≡ (lift (read_settings args) >>= run_settings) w
  unfolding run_node run_settings from_name
  run_node-settings args w = refl

  -- If --dryrun is given or the user is not root, then `node run` leaves the host as it is,
  -- however it ends.
  pub run_node-IsQuiet :
      (args : Args) (w : World p.Store)
      → (arg_bool_or_false args "--dryrun" ≡ returned true) ⊎ (h.uid ≢ 0)
      → (run_node p n h backend args w).1.system ≡ w.system
  run_node-IsQuiet args w safe =
      ap (λ r. r.1.system) (run_node-settings args w)
      ∙ continue-IsQuiet (read_settings args) run_settings
          (λ s read. run_settings-IsQuiet s (elim safe [
            | inl dry ↦ inl (ground (arith, read_settings-dryrun args read))
            | inr not_root ↦ inr not_root
          ]))
          w
