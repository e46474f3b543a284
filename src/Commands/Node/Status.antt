-- ===== src/Commands/Node/Status.antt =====
-- calicoctl/commands/node/status.go: the processes of the node and the BGP peers of its BIRDs.
pub mod Laws
pub mod Reads
pub mod Bounds
use operations_calico_contai.Base.{
  ℕ, String, ◌<>◌, Bool, true, false, ◌||◌, Option, none, some, List, [], ◌∷◌, ◌++◌, any, ◌==◌,
  if◌then◌else◌,
}
use operations_calico_contai.Base.Text.{after_prefix}
use operations_calico_contai.Base.Text.Split.{
  find_peer_name, fields, split_lines, replace_underscores,
}
use operations_calico_contai.Base.Result.{Error, Result, ok, err, message}
use operations_calico_contai.Base.Proc.{Proc, pure, exit, panic, call, print, println, ◌>>=◌, ◌>>◌}
use operations_calico_contai.Commands.Usage.{Parsed, with_arguments}
use operations_calico_contai.Commands.Node.Host.{Host, enforce_root}

-- The list of processes, the sockets of BIRD, and the table writer.
pub record Sockets (S : Type 0) : Type 1 where
  pub Conn : Type 0
  pub processes : S → Result (List String) × S
  pub dial : String → S → Result Conn × S
  pub write : Conn → String → S → Option Error × S
  -- What was read, at most 1024 bytes, and the error if there was one.
  pub read : Conn → S → (String × Option Error) × S
  pub render : List String → List (List String) → String

-- psContains
abbrev pub ps_contains : String → List String → Bool
ps_contains proc procs = any (λ p. p == proc) procs

-- The loop that appends the words after the sixth to the last column.
unfoldable pub append_words : String → List String → String
append_words info [] = info
append_words info (e ∷ es) = append_words (info <> (" " <> e)) es

-- The words after the third, as three columns. Slicing a shorter line panics.
unfoldable pub columns_of : List String → Option (List String)
unfolding append_words
columns_of (_ ∷ _ ∷ _ ∷ state ∷ since ∷ info ∷ more) =
    some (state ∷ since ∷ append_words info more ∷ [])
columns_of _ = none

-- The first two columns of a peer, by the prefix of its name.
unfoldable pub peer_of : String → String → Option (String × String)
unfolding after_prefix replace_underscores
peer_of ip_sep name = elim (after_prefix "Mesh_" name) [
  | some ip ↦ some (replace_underscores ip ip_sep, "node-to-node mesh")
  | none ↦ elim (after_prefix "Node_" name) [
    | some ip ↦ some (replace_underscores ip ip_sep, "node specific")
    | none ↦ elim (after_prefix "Global_" name) [
      | some ip ↦ some (replace_underscores ip ip_sep, "global")
      | none ↦ none
    ]
  ]
]

module _ {S : Type 0} where
  -- The loop over the lines, with its variable `data`. A name with another prefix ends the loop.
  unfoldable pub read_peers :
      String → List String → List (List String) → Proc S (List (List String))
  unfolding find_peer_name fields columns_of peer_of
  read_peers ip_sep [] rows = pure rows
  read_peers ip_sep (line ∷ lines) rows = elim (find_peer_name line) [
    | none ↦ read_peers ip_sep lines rows
    | some name ↦ elim (columns_of (fields line)) [
      | none ↦ panic
      | some columns ↦ elim (peer_of ip_sep name) [
        | none ↦ do println "Error: Did not match any of the predefined options for BIRD"; pure rows
        | some (address, kind) ↦ read_peers ip_sep lines (rows ++ ((address ∷ kind ∷ columns) ∷ []))
      ]
    ]
  ]

  module _ (sockets : Sockets S) where
    abbrev pub header : List String
    header = "Peer address" ∷ "Peer type" ∷ "State" ∷ "Since" ∷ "Info" ∷ []

    -- The first of the two sockets that answers.
    unfoldable pub connect : String → Proc S (Result sockets.Conn)
    connect suffix = do
      first ← call (sockets.dial ("/var/run/calico/bird" <> suffix <> ".ctl"))
      elim first [
        | ok c ↦ pure (ok c)
        | err _ ↦ call (sockets.dial ("/var/run/bird/bird" <> suffix <> ".ctl"))
      ]

    unfoldable pub show_peers : String → List (List String) → Proc S (Unit {0})
    show_peers ipv [] = print ("No IPv" <> ipv <> " peers found.\n")
    show_peers ipv (row ∷ rows) = print (sockets.render header (row ∷ rows))

    unfoldable pub warn : Option Error → Proc S (Unit {0})
    warn none = pure tt
    warn (some e) = print ("Error: " <> message e <> "\n")

    -- printBGPPeers
    unfoldable pub print_bgp_peers : String → Proc S (Unit {0})
    unfolding connect show_peers warn read_peers split_lines
    print_bgp_peers ipv = do
      let suffix = if ipv == "6" then "6" else ""
      let ip_sep = if ipv == "6" then ":" else "."
      print ("\nIPv" <> ipv <> " BGP status")
      conn ← connect suffix
      elim conn [
        | err e ↦ print ("Error connecting to BIRDv" <> ipv <> " socket: " <> message e)
        | ok c ↦ do
          println ""
          failure ← call (sockets.write c "show protocols\n")
          elim failure [
            | some e ↦ do print ("Error writing to BIRD socket: " <> message e <> "\n"); exit 1
            | none ↦ do
              (out, problem) ← call (sockets.read c)
              warn problem
              rows ← read_peers ip_sep (split_lines out) []
              show_peers ipv rows
          ]
      ]

    -- The processes, none where they cannot be listed.
    unfoldable pub list_processes : Proc S (List String)
    list_processes = do
      processes ← call sockets.processes
      elim processes [ ok procs ↦ pure procs | err e ↦ do println (message e); pure [] ]

    unfoldable pub show_bird : List String → String → String → Proc S (Unit {0})
    unfolding print_bgp_peers
    show_bird procs bird ipv =
        if ps_contains bird procs
        then print_bgp_peers ipv
        else print ("\nINFO: BIRDv" <> ipv <> " process: '" <> bird <> "' is not running.\n")

    unfoldable pub show_status : Host S → Proc S (Unit {0})
    unfolding enforce_root list_processes show_bird
    show_status h = do
      enforce_root h
      procs ← list_processes
      (if ps_contains "calico-felix" procs
          then (do
            print "Calico process is running.\n"
            show_bird procs "bird" "4"
            show_bird procs "bird6" "6"
            println "")
          else (do print "Calico process is not running.\n"; exit 1))

    -- Status
    unfoldable pub status : Host S → List String → Parsed → Proc S (Unit {0})
    unfolding with_arguments show_status
    status h argv answer = with_arguments argv answer (λ args. show_status h)
