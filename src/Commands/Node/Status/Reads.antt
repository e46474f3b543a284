-- ===== src/Commands/Node/Status/Reads.antt =====
-- The loop over the lines of BIRD's output, as a relation between the lines and the rows.
use mathlib.Core.List.{append-nil, append_assoc}
use operations_calico_contai.Base.{
  String, ◌≡◌, sym, ◌∙◌, inl, inr, none, some, List, [], ◌∷◌, ◌++◌, Option-cases, arith,
}
use operations_calico_contai.Base.Text.Split.{find_peer_name, fields}
use operations_calico_contai.Base.Outcome.{returned}
use operations_calico_contai.Base.Proc.{World}
use operations_calico_contai.Commands.Node.Status.{columns_of, peer_of, read_peers}

pub data Reads (ip_sep : String) : List String → List (List String) → Type 0 where
  done : Reads ip_sep [] []
  -- A line that names no peer has no row.
  skip :
      {line : String} {lines : List String} {rows : List (List String)}
      → find_peer_name line ≡ none
      → Reads ip_sep lines rows
      → Reads ip_sep (line ∷ lines) rows
  -- A line that names a peer has a row with its address, its type and three columns.
  take :
      {line name address kind : String} {lines columns : List String} {rows : List (List String)}
      → find_peer_name line ≡ some name
      → columns_of (fields line) ≡ some columns
      → peer_of ip_sep name ≡ some (address, kind)
      → Reads ip_sep lines rows
      → Reads ip_sep (line ∷ lines) ((address ∷ kind ∷ columns) ∷ rows)
  -- A name of no known type is the end: the lines after it are not looked at.
  stop :
      {line name : String} {lines columns : List String}
      → find_peer_name line ≡ some name
      → columns_of (fields line) ≡ some columns
      → peer_of ip_sep name ≡ none
      → Reads ip_sep (line ∷ lines) []

module _ {S : Type 0} (ip_sep : String) where
  -- If the loop returns rows, then they are the rows that it began with, and after them those of the
  -- lines, one for each line that names a peer, in order, up to the first name of no known type.
  pub read_peers-Reads :
      (lines : List String) (rows out : List (List String)) (w w' : World S)
      → read_peers ip_sep lines rows w ≡ (returned out, w')
      → (new : List (List String)) × (out ≡ rows ++ new) × Reads ip_sep lines new
  unfolding read_peers
  read_peers-Reads [] rows out w w' h =
      let same : rows ≡ out = ground arith in ([], sym (append-nil rows ∙ same), done)
  read_peers-Reads (line ∷ lines) rows out w w' h = elim (Option-cases (find_peer_name line)) [
    | inl unnamed ↦
        let (new, same, reads) = read_peers-Reads lines rows out w w' (ground arith) in
        (new, same, skip unnamed reads)
    | inr (name, named) ↦ elim (Option-cases (columns_of (fields line))) [
      | inl short ↦ absurd (ground arith)
      | inr (columns, cut) ↦ elim (Option-cases (peer_of ip_sep name)) [
        | inl unknown ↦
            let same : rows ≡ out = ground arith in
            ([], sym (append-nil rows ∙ same), stop named cut unknown)
        | inr ((address, kind), known) ↦
            let row = address ∷ kind ∷ columns in
            let (new, same, reads) =
              read_peers-Reads lines (rows ++ (row ∷ [])) out w w' (ground arith) in
            (row ∷ new, same ∙ append_assoc rows (row ∷ []) new, take named cut known reads)
      ]
    ]
  ]
