-- ===== src/Commands/Config/Laws.antt =====
-- The configuration options: set and get, and the options that no node has a value of its own for.
use operations_calico_contai.Base.{
  String, ◌<>◌, ◌≡◌, ◌≢◌, ◌⊎◌, inl, inr, refl, Bool, true, false, Option, none, some, [], ◌∷◌, ◌++◌,
  Bool-cases, arith, ◌==◌, eq_iff,
}
use operations_calico_contai.Base.Text.{to_lower}
use operations_calico_contai.Base.Result.{Error, Result, ok, err}
use operations_calico_contai.Base.Outcome.{returned}
use operations_calico_contai.Base.Proc.{World, Proc, call, ◌>>=◌}
use operations_calico_contai.Commands.Config.{
  ConfigInterface, at_node, ConfigType, no_node, globally, show_result, set_switch, show_level,
  nowhere, show_switch, loglevel, nodemesh, ipip, set_as_number, asnum, config_type,
}

-- What the client promises of a value that it has set without an error.
pub record IsLawful {S : Type 0} (c : ConfigInterface S) : Type 0 where
  pub global_log_level :
      (v : String) (s : S)
      → (c.set_global_log_level v s).0 ≡ none
      → (c.get_global_log_level (c.set_global_log_level v s).1).0 ≡ ok v
  pub node_log_level :
      (n v : String) (s : S)
      → (c.set_node_log_level n v s).0 ≡ none
      → (c.get_node_log_level n (c.set_node_log_level n v s).1).0 ≡ ok (v, at_node)
  pub node_to_node_mesh :
      (b : Bool) (s : S)
      → (c.set_node_to_node_mesh b s).0 ≡ none
      → (c.get_node_to_node_mesh (c.set_node_to_node_mesh b s).1).0 ≡ ok b
  pub global_ipip :
      (b : Bool) (s : S)
      → (c.set_global_ipip b s).0 ≡ none
      → (c.get_global_ipip (c.set_global_ipip b s).1).0 ≡ ok b
  pub global_as_number :
      (n : c.AsNumber) (s : S)
      → (c.set_global_as_number n s).0 ≡ none
      → (c.get_global_as_number (c.set_global_as_number n s).1).0 ≡ ok n

module _ {S : Type 0} where
  -- It returns no error and prints one line.
  abbrev pub Prints : Proc S (Option Error) → World S → String → Type 0
  Prints m w line = ((m w).0 ≡ returned none) × ((m w).1.stdout ≡ w.stdout ++ ((line <> "\n") ∷ []))

  pub show_result-Prints :
      {A : Type 0} (show : A → String) (r : Result A) (a : A) (w : World S)
      → r ≡ ok a
      → Prints (show_result show r) w (show a)
  unfolding show_result
  show_result-Prints show (ok b) a w h = ground arith
  show_result-Prints show (err e) a w h = ground arith

  -- A call that has set a value, then one that gets it and shows it.
  pub call-Prints :
      {A : Type 0} (show : A → String) (a : A) (put : S → Option Error × S)
      (look : S → Result A × S)
      → ((s : S) → (put s).0 ≡ none → (look (put s).1).0 ≡ ok a)
      → (w w' : World S) → call put w ≡ (returned none, w')
      → Prints (call look >>= show_result show) w' (show a)
  call-Prints show a put look lawful w w' h =
      let clean : (put w.system).0 ≡ none = ground arith in
      let same : w'.system ≡ (put w.system).1 = ground arith in
      show_result-Prints show (look w'.system).0 a _ (rw same (lawful w.system clean))

  globally-blank :
      (node : String) (m : Proc S (Option Error)) {w w' : World S}
      → globally node m w ≡ (returned none, w')
      → ((node == "") ≡ true) × (m w ≡ (returned none, w'))
  unfolding globally
  globally-blank node m h = ground arith

  set_switch-value :
      (put : Bool → S → Option Error × S) (value : String) {w w' : World S}
      → set_switch put value w ≡ (returned none, w')
      → (b : Bool) × (value ≡ show_switch b) × (call (put b) w ≡ (returned none, w'))
  unfolding set_switch
  set_switch-value put value {w} {w'} h = elim (Bool-cases (value == "on")) [
    | inl on ↦ (true, (eq_iff value "on").0 on, ground arith)
    | inr not_on ↦ elim (Bool-cases (value == "off")) [
      | inl off ↦ (false, (eq_iff value "off").0 off, ground arith)
      | inr not_off ↦ ground arith
    ]
  ]

  set_switch-Prints :
      (put : Bool → S → Option Error × S) (look : S → Result Bool × S)
      → ((b : Bool) (s : S) → (put b s).0 ≡ none → (look (put b s).1).0 ≡ ok b)
      → (value node : String) (w w' : World S)
      → globally node (set_switch put value) w ≡ (returned none, w')
      → Prints (globally node (call look >>= show_result show_switch)) w' value
  unfolding globally
  set_switch-Prints put look laws value node w w' h =
      let (blank, ran) = globally-blank node (set_switch put value) h in
      let (b, is_shown, called) = set_switch-value put value ran in
      rw (blank, globally)
        (rw is_shown (call-Prints show_switch b (put b) look (laws b) w w' called))

  module _ (c : ConfigInterface S) where
    -- The text that is shown for a value: the value, or the AS number that it denotes.
    abbrev pub IsShown : String → String → Type 0
    IsShown value line =
        (line ≡ value)
        ⊎ ((n : c.AsNumber) × (c.as_number_from_string value ≡ ok n) × (line ≡ c.show_as_number n))

    abbrev pub RoundTrips : ConfigType S → Type 0
    RoundTrips t =
        (value node : String) (w w' : World S)
        → t.set value node w ≡ (returned none, w')
        → (line : String) × IsShown value line × Prints (t.get node) w' line

    config_type-cases :
        (name : String) {t : ConfigType S}
        → config_type c name ≡ some t
        → (t ≡ loglevel c) ⊎ ((t ≡ nodemesh c) ⊎ ((t ≡ asnum c) ⊎ (t ≡ ipip c)))
    unfolding config_type
    config_type-cases name h = ground arith

    module _ (lawful : IsLawful c) where
      loglevel-RoundTrips : RoundTrips (loglevel c)
      unfolding loglevel
      loglevel-RoundTrips value node w w' h = elim (Bool-cases (node == "")) [
        | inl blank ↦ (
          value,
          inl refl,
          rw (blank, loglevel)
              (call-Prints (λ s. show_level (s, nowhere)) value _ c.get_global_log_level
                (lawful.global_log_level value) w w' (rw (blank, loglevel) at h)),
        )
        | inr named ↦ (
          value,
          inl refl,
          rw (named, loglevel)
              (call-Prints show_level (value, at_node) _ (c.get_node_log_level node)
                (lawful.node_log_level node value) w w' (rw (named, loglevel) at h)),
        )
      ]

      nodemesh-RoundTrips : RoundTrips (nodemesh c)
      unfolding nodemesh
      nodemesh-RoundTrips value node w w' h = (
        value,
        inl refl,
        set_switch-Prints c.set_node_to_node_mesh c.get_node_to_node_mesh lawful.node_to_node_mesh
            value node w w' h,
      )

      ipip-RoundTrips : RoundTrips (ipip c)
      unfolding ipip
      ipip-RoundTrips value node w w' h = (
        value,
        inl refl,
        set_switch-Prints c.set_global_ipip c.get_global_ipip lawful.global_ipip value node w w' h,
      )

      set_as_number-value :
          (value : String) {w w' : World S}
          → set_as_number c value w ≡ (returned none, w')
          → (n : c.AsNumber) × (c.as_number_from_string value ≡ ok n)
            × (call (c.set_global_as_number n) w ≡ (returned none, w'))
      unfolding set_as_number
      set_as_number-value value h = ground arith

      asnum-RoundTrips : RoundTrips (asnum c)
      unfolding asnum globally
      asnum-RoundTrips value node w w' h =
          let (blank, ran) = globally-blank node (set_as_number c value) h in
          let (n, denotes, called) = set_as_number-value value ran in
          (
            c.show_as_number n,
            inr (n, denotes, refl),
            rw (blank, asnum)
                (call-Prints c.show_as_number n (c.set_global_as_number n) c.get_global_as_number
                  (lawful.global_as_number n) w w' called),
          )

      config_type-RoundTrips :
          (name : String) {t : ConfigType S} → config_type c name ≡ some t → RoundTrips t
      config_type-RoundTrips name h = elim (config_type-cases name h) [
        | inl same ↦ rw same loglevel-RoundTrips
        | inr (inl same) ↦ rw same nodemesh-RoundTrips
        | inr (inr (inl same)) ↦ rw same asnum-RoundTrips
        | inr (inr (inr same)) ↦ rw same ipip-RoundTrips
      ]

      -- With a client that gives back the values that it has set, if an option was set
      -- without an error, then getting it prints one line, the value or the AS number that
      -- the value denotes, and returns no error.
      pub config_type-set_get :
          (name : String) {t : ConfigType S} (value node : String) (w w' : World S)
          → config_type c name ≡ some t
          → t.set value node w ≡ (returned none, w')
          → (line : String) × IsShown value line × Prints (t.get node) w' line
      config_type-set_get name value node w w' h = config_type-RoundTrips name h value node w w'

    -- An option whose name is not logLevel rejects a node that is not blank, in set, unset
    -- and get alike: each returns the error on --node, and neither changes nor prints
    -- anything.
    pub config_type-rejects_node :
        (name : String) {t : ConfigType S}
        → config_type c name ≡ some t
        → to_lower name ≢ "loglevel"
        → (value node : String) (w : World S) → node ≢ ""
        → (t.set value node w ≡ (returned (some no_node), w))
          × (t.unset node w ≡ (returned (some no_node), w))
          × (t.get node w ≡ (returned (some no_node), w))
    unfolding config_type nodemesh ipip asnum globally
    config_type-rejects_node name h is_global value node w named =
        ground (arith, eq_iff (to_lower name) "loglevel", eq_iff node "")
