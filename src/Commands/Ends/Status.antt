-- ===== src/Commands/Ends/Status.antt =====
-- The status of the node, where the lines of BIRD that name a peer have the six words of its tables.
use operations_calico_contai.Base.{
  String, ◌<>◌, ◌==◌, if◌then◌else◌, Bool-cases, ◌≢◌, refl, Option, none, some, List, [], ◌∷◌, inl,
  inr, All, Option-cases, arith,
}
use operations_calico_contai.Base.Text.Split.{find_peer_name, fields, split_lines}
use operations_calico_contai.Base.Result.{Error, Result, ok, err, message}
use operations_calico_contai.Base.Proc.{Proc, call, exit, print, println, ◌>>=◌, ◌>>◌}
use operations_calico_contai.Base.Proc.Ends.{EndsWell, bind-EndsWell, then-EndsWell}
use operations_calico_contai.Commands.Node.Host.{Host, enforce_root}
use operations_calico_contai.Commands.Ends.Checksystem.{enforce_root-EndsWell}
use operations_calico_contai.Commands.Node.Status.{
  Sockets, ps_contains, columns_of, peer_of, read_peers, connect, warn, show_peers, print_bgp_peers,
  list_processes, show_bird, show_status,
}

-- A line that names a peer has six words or more.
abbrev pub IsTableLine : String → Type 0
IsTableLine line = find_peer_name line ≢ none → columns_of (fields line) ≢ none

module _ {S : Type 0} where
  read_peers-EndsWell :
      (ip_sep : String) (lines : List String) (rows : List (List String))
      → All IsTableLine lines
      → EndsWell (read_peers {S = S} ip_sep lines rows)
  unfolding read_peers
  read_peers-EndsWell ip_sep [] rows h = λ w. tt
  read_peers-EndsWell ip_sep (line ∷ lines) rows (h, hs) = λ w.
      elim (Option-cases (find_peer_name line)) [
        | inl nameless ↦ rw (nameless, read_peers) (read_peers-EndsWell ip_sep lines rows hs w)
        | inr (name, named) ↦ elim (Option-cases (columns_of (fields line))) [
          | inl short ↦ absurd (h (λ e. ground arith) short)
          | inr (columns, long) ↦ elim (Option-cases (peer_of ip_sep name)) [
            | inl unknown ↦
                rw (named, read_peers) (rw (long, read_peers) (rw (unknown, read_peers) tt))
            | inr ((address, kind), known) ↦
                rw (named, read_peers)
                  (rw (long, read_peers)
                    (rw (known, read_peers) (read_peers-EndsWell ip_sep lines _ hs w)))
          ]
        ]
      ]

  module _ (sockets : Sockets S)
      (tables : (c : sockets.Conn) (s : S)
        → All IsTableLine (split_lines (sockets.read c s).0.0)) where
    -- The part that reads the answer of BIRD.
    abbrev from_answer : String → String → sockets.Conn → Proc S (Unit {0})
    from_answer ip_sep ipv c = do
      (out, problem) ← call (sockets.read c)
      warn sockets problem
      rows ← read_peers ip_sep (split_lines out) []
      show_peers sockets ipv rows

    show_peers-EndsWell :
        (ipv : String) (rows : List (List String)) → EndsWell (show_peers sockets ipv rows)
    unfolding show_peers
    show_peers-EndsWell ipv [] = λ w. tt
    show_peers-EndsWell ipv (row ∷ rows) = λ w. tt

    warn-EndsWell : (e : Option Error) → EndsWell (warn sockets e)
    unfolding warn
    warn-EndsWell none = λ w. tt
    warn-EndsWell (some e) = λ w. tt

    from_answer-EndsWell :
        (ip_sep ipv : String) (c : sockets.Conn) → EndsWell (from_answer ip_sep ipv c)
    from_answer-EndsWell ip_sep ipv c w =
        let out = (sockets.read c w.system).0.0 in
        let problem = (sockets.read c w.system).0.1 in
        then-EndsWell (warn sockets problem)
          (read_peers ip_sep (split_lines out) [] >>= show_peers sockets ipv)
          (warn-EndsWell problem)
          (bind-EndsWell (read_peers ip_sep (split_lines out) []) (show_peers sockets ipv)
            (read_peers-EndsWell ip_sep (split_lines out) [] (tables c w.system))
            (show_peers-EndsWell ipv))
          _

    -- The part after the write to the socket.
    abbrev from_write : String → String → sockets.Conn → Option Error → Proc S (Unit {0})
    from_write ip_sep ipv c failure = elim failure [
      | some e ↦ do print ("Error writing to BIRD socket: " <> message e <> "\n"); exit 1
      | none ↦ from_answer ip_sep ipv c
    ]

    from_write-EndsWell :
        (ip_sep ipv : String) (c : sockets.Conn) (failure : Option Error)
        → EndsWell (from_write ip_sep ipv c failure)
    from_write-EndsWell ip_sep ipv c (some e) = λ w. refl
    from_write-EndsWell ip_sep ipv c none = from_answer-EndsWell ip_sep ipv c

    -- The part after the connection.
    abbrev from_connection : String → String → Result sockets.Conn → Proc S (Unit {0})
    from_connection ip_sep ipv conn = elim conn [
      | err e ↦ print ("Error connecting to BIRDv" <> ipv <> " socket: " <> message e)
      | ok c ↦ do
        println ""
        failure ← call (sockets.write c "show protocols\n")
        from_write ip_sep ipv c failure
    ]

    from_connection-EndsWell :
        (ip_sep ipv : String) (conn : Result sockets.Conn)
        → EndsWell (from_connection ip_sep ipv conn)
    from_connection-EndsWell ip_sep ipv (err e) = λ w. tt
    from_connection-EndsWell ip_sep ipv (ok c) =
        λ w. from_write-EndsWell ip_sep ipv c (sockets.write c "show protocols\n" w.system).0 _

    connect-EndsWell : (suffix : String) → EndsWell (connect sockets suffix)
    unfolding connect
    connect-EndsWell suffix w = ground arith

    print_bgp_peers-EndsWell : (ipv : String) → EndsWell (print_bgp_peers sockets ipv)
    unfolding print_bgp_peers
    print_bgp_peers-EndsWell ipv =
        let suffix = if ipv == "6" then "6" else "" in
        let ip_sep = if ipv == "6" then ":" else "." in
        then-EndsWell (print ("\nIPv" <> ipv <> " BGP status"))
          (connect sockets suffix >>= from_connection ip_sep ipv) (λ w. tt)
          (bind-EndsWell (connect sockets suffix) (from_connection ip_sep ipv)
            (connect-EndsWell suffix) (from_connection-EndsWell ip_sep ipv))

    show_bird-EndsWell :
        (procs : List String) (bird ipv : String) → EndsWell (show_bird sockets procs bird ipv)
    unfolding show_bird
    show_bird-EndsWell procs bird ipv w = elim (Bool-cases (ps_contains bird procs)) [
      | inl running ↦ rw (running, show_bird) (print_bgp_peers-EndsWell ipv w)
      | inr stopped ↦ rw (stopped, show_bird) tt
    ]

    list_processes-EndsWell : EndsWell (list_processes sockets)
    unfolding list_processes
    list_processes-EndsWell w = ground arith

    -- The part after the list of the processes, where felix is one of them.
    abbrev felix_runs : List String → Proc S (Unit {0})
    felix_runs procs = do
      print "Calico process is running.\n"
      show_bird sockets procs "bird" "4"
      show_bird sockets procs "bird6" "6"
      println ""

    felix_runs-EndsWell : (procs : List String) → EndsWell (felix_runs procs)
    felix_runs-EndsWell procs =
        let four = show_bird sockets procs "bird" "4" in
        let six = show_bird sockets procs "bird6" "6" in
        then-EndsWell (print "Calico process is running.\n") (four >> (six >> println "")) (λ w. tt)
          (then-EndsWell four (six >> println "") (show_bird-EndsWell procs "bird" "4")
            (then-EndsWell six (println "") (show_bird-EndsWell procs "bird6" "6") (λ w. tt)))

    abbrev from_processes : List String → Proc S (Unit {0})
    from_processes procs =
        if ps_contains "calico-felix" procs
        then felix_runs procs
        else (do print "Calico process is not running.\n"; exit 1)

    from_processes-EndsWell : (procs : List String) → EndsWell (from_processes procs)
    from_processes-EndsWell procs w = elim (Bool-cases (ps_contains "calico-felix" procs)) [
      | inl running ↦ rw running (felix_runs-EndsWell procs w)
      | inr stopped ↦ rw stopped refl
    ]

    pub show_status-EndsWell : (h : Host S) → EndsWell (show_status sockets h)
    unfolding show_status
    show_status-EndsWell h =
        then-EndsWell (enforce_root h) (list_processes sockets >>= from_processes)
          (enforce_root-EndsWell h)
          (bind-EndsWell (list_processes sockets) from_processes list_processes-EndsWell
            from_processes-EndsWell)
