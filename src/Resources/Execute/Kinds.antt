-- ===== src/Resources/Execute/Kinds.antt =====
-- The number of resources and the single kind that the results begin with.
use text.Mathlib.TextPositions.{eq_refl}
use operations_calico_contai.Base.{
  ℕ, zero, suc, ◌+◌, ◌≤◌, ◌≡◌, ◌∙◌, inl, inr, refl, String, false, none, List, [], ◌∷◌, length, all,
  ◌==◌, eq_iff, Bool-cases, if◌then◌else◌, arith,
}
use operations_calico_contai.Base.Dict.{Dict, lookup, insert}
use operations_calico_contai.Platform.{Platform}
use operations_calico_contai.Manager.{Resource, metadata_of}
use operations_calico_contai.Resources.Execute.{is_one, count_kinds, initial_results}

length-le-insert : (k : String) (v : ℕ) (m : Dict ℕ) → length m ≤ length (insert k v m)
unfolding insert
length-le-insert k v [] = omega arith
length-le-insert k v ((j, w) ∷ m) = ground (arith, length-le-insert k v m)

is_one_of_two : (n : ℕ) → 2 ≤ n → is_one n ≡ false
is_one_of_two zero h = absurd (omega arith)
is_one_of_two (suc zero) h = absurd (omega arith)
is_one_of_two (suc (suc n)) h = refl

not_eq_comm : (s t : String) → (s == t) ≡ false → (t == s) ≡ false
not_eq_comm s t h = ground (arith, eq_iff s t, eq_iff t s)

module _ (p : Platform) where
  abbrev kind_of : Resource p.Object → String
  kind_of r = (metadata_of p r).kind

  abbrev single : String × Dict ℕ × ℕ → String
  single (kind, count, n) = if is_one (length count) then kind else ""

  -- The two results of the count that executeConfigCommand uses.
  num_resources-count :
      (rs : List (Resource p.Object)) (kind : String) (count : Dict ℕ) (n : ℕ)
      → (count_kinds p rs kind count n).2 ≡ n + length rs
  unfolding count_kinds
  num_resources-count [] kind count n = omega arith
  num_resources-count (r ∷ rs) kind count n = omega (arith, num_resources-count rs _ _ (n + 1))

  -- Once two kinds have been counted there is no single kind.
  single-two :
      (rs : List (Resource p.Object)) (kind : String) (count : Dict ℕ) (n : ℕ)
      → 2 ≤ length count
      → single (count_kinds p rs kind count n) ≡ ""
  unfolding count_kinds
  single-two [] kind count n h = rw (is_one_of_two (length count) h)
  single-two (r ∷ rs) kind count n h =
      single-two rs _ _ _ (omega (arith, length-le-insert (kind_of r) _ count))

  single-one :
      (rs : List (Resource p.Object)) (kind : String) (c n : ℕ)
      → single (count_kinds p rs kind ((kind, c) ∷ []) n)
        ≡ (if all (λ r. kind_of r == kind) rs then kind else "")
  unfolding count_kinds insert lookup
  single-one [] kind c n = refl
  single-one (r ∷ rs) kind c n = elim (Bool-cases (kind == kind_of r)) [
    | inl same ↦
        let e = (eq_iff kind (kind_of r)).0 same in
        rw (count_kinds, ← e, eq_refl) (single-one rs kind _ _)
    | inr differ ↦
        rw (count_kinds, insert, lookup, differ, not_eq_comm kind (kind_of r) differ)
          (single-two rs _ ((kind, c) ∷ (kind_of r, _) ∷ []) _ (omega arith))
  ]

  -- For some resources, the results begin with their number, with their kind if they are all
  -- of one kind and a blank otherwise, with none handled and without an error.
  pub initial_results-kind :
      (r : Resource p.Object) (rs : List (Resource p.Object))
      → let res = initial_results p (r ∷ rs) in
        (res.num_resources ≡ length (r ∷ rs))
        × (res.single_kind ≡ (if all (λ s. kind_of s == kind_of r) rs then kind_of r else ""))
        × (res.num_handled ≡ 0)
        × (res.err ≡ none)
  unfolding initial_results insert lookup
  initial_results-kind r rs = (
    num_resources-count (r ∷ rs) "" [] 0 ∙ omega arith,
    single-one rs (kind_of r) 1 1,
    refl,
    refl,
  )
