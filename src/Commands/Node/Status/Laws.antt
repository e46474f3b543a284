-- ===== src/Commands/Node/Status/Laws.antt =====
-- What the table of the BGP peers holds, and the lines on which the command fails.
use mathlib.Core.Path.{subst}
use operations_calico_contai.Base.{
  String, ◌≡◌, ◌⊎◌, inl, inr, some, List, [], ◌∷◌, ◌++◌, All, All-append, Option-cases, arith,
}
use operations_calico_contai.Base.Text.Split.{find_peer_name, fields}
use operations_calico_contai.Base.Outcome.{returned}
use operations_calico_contai.Base.Proc.{World}
use operations_calico_contai.Commands.Node.Status.{append_words, columns_of, peer_of, read_peers}

columns_of-three :
    (words : List String) {columns : List String}
    → columns_of words ≡ some columns
    → (a : String) × (b : String) × (c : String) × (columns ≡ a ∷ b ∷ c ∷ [])
unfolding columns_of
columns_of-three [] h = ground arith
columns_of-three (a ∷ []) h = ground arith
columns_of-three (a ∷ b ∷ []) h = ground arith
columns_of-three (a ∷ b ∷ c ∷ []) h = ground arith
columns_of-three (a ∷ b ∷ c ∷ d ∷ []) h = ground arith
columns_of-three (a ∷ b ∷ c ∷ d ∷ e ∷ []) h = ground arith
columns_of-three (a ∷ b ∷ c ∷ d ∷ e ∷ f ∷ more) h = (d, e, append_words f more, ground arith)

-- A type of peer.
abbrev pub IsPeerType : String → Type 0
IsPeerType kind = (kind ≡ "node-to-node mesh") ⊎ ((kind ≡ "node specific") ⊎ (kind ≡ "global"))

peer_of-IsPeerType :
    (ip_sep name : String) {address kind : String}
    → peer_of ip_sep name ≡ some (address, kind)
    → IsPeerType kind
unfolding peer_of
peer_of-IsPeerType ip_sep name h = ground arith

-- A row has the five columns of the header, and its second column is a type of peer.
abbrev pub IsRow : List String → Type 0
IsRow (address ∷ kind ∷ state ∷ since ∷ info ∷ []) = IsPeerType kind
IsRow _ = ⊥

columns_of-IsRow :
    (address kind : String) (words columns : List String)
    → IsPeerType kind
    → columns_of words ≡ some columns
    → IsRow (address ∷ kind ∷ columns)
columns_of-IsRow address kind words columns of_type cut =
    let (a, b, c, same) = columns_of-three words cut in rw same of_type

module _ {S : Type 0} where
  -- If the lines of BIRD are read with rows before them that have the five columns of the
  -- header, of which the second is a type of peer, then so have all the rows that are
  -- returned.
  pub read_peers-IsRow :
      (ip_sep : String) (lines : List String) (rows out : List (List String)) (w w' : World S)
      → All IsRow rows
      → read_peers ip_sep lines rows w ≡ (returned out, w')
      → All IsRow out
  unfolding read_peers
  read_peers-IsRow ip_sep [] rows out w w' all_of h =
      let same : rows ≡ out = ground arith in subst (All IsRow) same all_of
  read_peers-IsRow ip_sep (line ∷ lines) rows out w w' all_of h =
      elim (Option-cases (find_peer_name line)) [
        | inl unnamed ↦
            read_peers-IsRow ip_sep lines rows out w w' all_of (rw (unnamed, read_peers) at h)
        | inr (name, named) ↦ elim (Option-cases (columns_of (fields line))) [
          | inl short ↦ absurd (ground arith)
          | inr (columns, cut) ↦ elim (Option-cases (peer_of ip_sep name)) [
            | inl other ↦ let same : rows ≡ out = ground arith in subst (All IsRow) same all_of
            | inr ((address, kind), known) ↦
                read_peers-IsRow ip_sep lines (rows ++ ((address ∷ kind ∷ columns) ∷ [])) out w w'
                  (All-append IsRow rows _ all_of (
                    columns_of-IsRow address kind (fields line) columns
                        (peer_of-IsPeerType ip_sep name known) cut,
                    tt,
                  ))
                  (ground arith)
          ]
        ]
      ]
