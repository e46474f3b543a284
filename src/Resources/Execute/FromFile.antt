-- ===== src/Resources/Execute/FromFile.antt =====
-- executeConfigCommand, over the resources of a file and over a resource that the arguments name.
use operations_calico_contai.Base.{
  String, ◌≡◌, ◌∙◌, inl, inr, refl, ap, true, false, List, [], ◌∷◌, map, All, All-append, arith,
}
use operations_calico_contai.Base.Text.{has_suffix}
use operations_calico_contai.Base.Result.{Result, ok, err}
use operations_calico_contai.Base.Outcome.{returned}
use operations_calico_contai.Base.Proc.{World}
use operations_calico_contai.Args.{Args, text}
use operations_calico_contai.Args.Laws.{NamesResource, OfResources}
use operations_calico_contai.Platform.{
  Platform, ResourceKind, node, HasConstructors, HasFields, kind_name, list_name,
}
use operations_calico_contai.Manager.{Resource, struct, pointer}
use operations_calico_contai.Manager.Registrations.{registered}
use operations_calico_contai.Manager.Files.{create_resources_from_file}
use operations_calico_contai.Manager.Files.Decodes.{
  IsOwn, IsListOf, IsDecoded, HasZero, Decodes, create_resources_from_file-IsDecoded,
}
use operations_calico_contai.Resources.Arguments.{resource_for}
use operations_calico_contai.Resources.Arguments.Laws.{resource_for-IsOf}
use operations_calico_contai.Resources.Convert.{is_list_kind}
use operations_calico_contai.Resources.Convert.Laws.{HasItems, expand, convert-pointers}
use operations_calico_contai.Resources.Execute.{
  Action, Step, return, go_on, failed, load_file, load_resources, execute_config_command,
}
use operations_calico_contai.Resources.Execute.Total.{
  Returns, IsElement, identifiers, loaded_named, execute_config_command-Returns,
  execute_config_command-Returns_for_arguments,
}

kind_name-single : (k : ResourceKind) → has_suffix (kind_name k) "List" ≡ false
unfolding has_suffix
kind_name-single node = refl
kind_name-single _ = refl

list_name-many : (k : ResourceKind) → has_suffix (list_name k) "List" ≡ true
unfolding has_suffix
list_name-many node = refl
list_name-many _ = refl

module _ (p : Platform) where
  pub own-single : (o : p.Object) → IsOwn p o → is_list_kind p o ≡ false
  unfolding is_list_kind
  own-single o (k, m, t) = rw m (kind_name-single k)

  pub list-many : (o : p.Object) → IsListOf p o → is_list_kind p o ≡ true
  unfolding is_list_kind
  list-many o (k, m, t) = rw m (list_name-many k)

  pub IsDecoded-HasItems : (o : p.Object) → IsDecoded p o → HasItems p o
  IsDecoded-HasItems o (inl own) many = absurd (ground (arith, own-single o own))
  IsDecoded-HasItems o (inr (_, (items, found, _))) many = λ nothing. ground arith

  pub All-HasItems : (os : List p.Object) → All (IsDecoded p) os → All (HasItems p) os
  All-HasItems [] h = tt
  All-HasItems (o ∷ os) (h, hs) = (IsDecoded-HasItems o h, All-HasItems os hs)

  own-IsElement : (os : List p.Object) → All (IsOwn p) os → All (IsElement p) (map struct os)
  own-IsElement [] h = tt
  own-IsElement (o ∷ os) ((k, m, t), hs) = ((k, o, refl, m, t), own-IsElement os hs)

  expand-IsOwn : (os : List p.Object) → All (IsDecoded p) os → All (IsOwn p) (expand p os)
  expand-IsOwn [] h = tt
  expand-IsOwn (o ∷ os) (inl own, hs) = rw (own-single o own) (own, expand-IsOwn os hs)
  expand-IsOwn (o ∷ os) (inr (many, (items, found, owns)), hs) =
      rw (list-many o many)
        (rw found (All-append (IsOwn p) items (expand p os) owns (expand-IsOwn os hs)))

  load_file-pointers :
      (f : String) (os : List p.Object)
      → create_resources_from_file p (registered p) f ≡ ok (map pointer os)
      → All (IsDecoded p) os
      → load_file p f ≡ returned (go_on (map struct (expand p os)))
  unfolding load_file
  load_file-pointers f os made decoded =
      rw (made, load_file) (rw (convert-pointers p os (All-HasItems os decoded)))

  -- What the resources are loaded as: structs of the kinds, or an error and no resource.
  abbrev pub Loads : Step p (List (Resource p.Object)) → Type 0
  Loads (return res) = res.resources ≡ []
  Loads (go_on rs) = All (IsElement p) rs

  module _ (c : HasConstructors p) (fields : HasFields p) (z : HasZero p) (d : Decodes p) where
    load_file-ok :
        (f : String) (rs : List (Resource p.Object))
        → create_resources_from_file p (registered p) f ≡ ok rs
        → (structs : List (Resource p.Object)) × (load_file p f ≡ returned (go_on structs))
          × All (IsElement p) structs
    unfolding load_file
    load_file-ok f rs made =
        let (os, same, decoded) = create_resources_from_file-IsDecoded c z d f rs made in
        (
          map struct (expand p os),
          load_file-pointers f os (made ∙ ap ok same) decoded,
          own-IsElement (expand p os) (expand-IsOwn os decoded),
        )

    load_resources-named_file :
        (args : Args) (f : String)
        → args "--filename" ≡ text f
        → load_resources p args ≡ load_file p f
    unfolding load_resources
    load_resources-named_file args f given = rw (given, load_resources)

    file_Returns :
        (args : Args) (action : Action) (f : String) (w : World p.Store)
        → OfResources args
        → args "--filename" ≡ text f
        → (r : Result (List (Resource p.Object)))
        → create_resources_from_file p (registered p) f ≡ r
        → Returns p (execute_config_command p args action w)
    unfolding execute_config_command load_file
    file_Returns args action f w g given (err e) made =
        rw (load_resources-named_file args f given, execute_config_command)
          (rw (made, load_file) tt)
    file_Returns args action f w g given (ok rs) made =
        let (structs, loads, are) = load_file-ok f rs made in
        execute_config_command-Returns p c args action g.skip_exists g.skip_not_exists g.config.0
          g.config.1 structs w (load_resources-named_file args f given ∙ loads) are

    pub execute_config_command-Returns_for_resources :
        (args : Args) (action : Action) (w : World p.Store)
        → OfResources args
        → Returns p (execute_config_command p args action w)
    execute_config_command-Returns_for_resources args action w g = elim g.source [
      | inl (f, given) ↦
          file_Returns args action f w g given (create_resources_from_file p (registered p) f) refl
      | inr named ↦ execute_config_command-Returns_for_arguments p c fields args action named w
    ]

    file_loaded :
        (f : String) (r : Result (List (Resource p.Object)))
        → create_resources_from_file p (registered p) f ≡ r
        → (s : Step p (List (Resource p.Object))) × (load_file p f ≡ returned s) × Loads s
    unfolding load_file
    file_loaded f (err e) made =
        (return (record (failed p e) { file_invalid = true }), rw (made, load_file) refl, refl)
    file_loaded f (ok rs) made =
        let (structs, loads, are) = load_file-ok f rs made in (go_on structs, loads, are)

    name_loaded :
        (args : Args) (n : NamesResource args) (r : Result (Resource p.Object))
        → resource_for p n.kind.0 (identifiers p args) ≡ r
        → (s : Step p (List (Resource p.Object))) × (load_resources p args ≡ returned s) × Loads s
    name_loaded args n (err e) made =
        (return (failed p e), rw (loaded_named p args n) (rw made refl), refl)
    name_loaded args n (ok r) made =
        let (k, o, _, same, is_of) =
          resource_for-IsOf c fields n.kind.0 (identifiers p args) r made in
        (
          go_on (r ∷ []),
          rw (loaded_named p args n) (rw made refl),
          ((k, o, same, is_of.0, is_of.1), tt),
        )

    pub load_resources-Loads :
        (args : Args)
        → OfResources args
        → (s : Step p (List (Resource p.Object))) × (load_resources p args ≡ returned s) × Loads s
    load_resources-Loads args g = elim g.source [
      | inl (f, given) ↦
          let (s, loads, are) =
            file_loaded f (create_resources_from_file p (registered p) f) refl in
          (s, load_resources-named_file args f given ∙ loads, are)
      | inr named ↦ name_loaded args named (resource_for p named.kind.0 (identifiers p args)) refl
    ]
