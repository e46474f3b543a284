-- ===== src/Commands/Node/Docker/Command.antt =====
-- The command that starts the container of the node: its options for the environment and the
-- mounts.
use operations_calico_contai.Base.{
  String, ◌<>◌, ◌≡◌, refl, ap, ◌∙◌, Bool-cases, inl, inr, some, List, [], ◌∷◌, ◌++◌, arith, ◌==◌,
  eq_iff,
}
use operations_calico_contai.Base.Dict.{Dict, lookup}
use operations_calico_contai.Commands.Node.Host.{Host}
use operations_calico_contai.Commands.Node.Run.Validation.{Settings, EtcdConfig}
use operations_calico_contai.Commands.Node.Docker.{envs, vols, flags, docker_command}

-- Ranging over a map gives each key with its value.
abbrev pub IsRange : {S : Type 0} → Host S → Type 0
IsRange h = (m : Dict String) (k : String) → lookup k (h.range m) ≡ lookup k m

-- The two words stand next to each other.
abbrev pub Occurs : String → String → List String → Type 0
Occurs x y words =
    (before : List String) × (after : List String) × (words ≡ before ++ (x ∷ y ∷ after))

Occurs-after :
    {x y : String} (front : List String) {words : List String}
    → Occurs x y words
    → Occurs x y (front ++ words)
Occurs-after [] found = found
Occurs-after (z ∷ front) found =
    let (before, after, same) = Occurs-after front found in
    (z ∷ before, after, ap (λ l. z ∷ l) same)

append_assoc : (xs ys zs : List String) → (xs ++ ys) ++ zs ≡ xs ++ (ys ++ zs)
append_assoc [] ys zs = refl
append_assoc (x ∷ xs) ys zs = ap (λ l. x ∷ l) (append_assoc xs ys zs)

Occurs-before :
    {x y : String} {words : List String} (back : List String)
    → Occurs x y words
    → Occurs x y (words ++ back)
Occurs-before {x} {y} back (before, after, same) =
    (before, after ++ back, rw same (append_assoc before (x ∷ y ∷ after) back))

module _ (option sep k v : String) where
  flags-Occurs :
      (m : List (String × String))
      → lookup k m ≡ some v
      → Occurs option (k <> sep <> v) (flags option sep m)
  unfolding lookup flags
  flags-Occurs [] h = ground arith
  flags-Occurs ((j, x) ∷ m) h = elim (Bool-cases (j == k)) [
    | inl same ↦
        let j≡k : j ≡ k = (eq_iff j k).0 same in
        let x≡v : x ≡ v = ground arith in ([], flags option sep m, rw (j≡k, x≡v) refl)
    | inr differ ↦ Occurs-after (option ∷ (j <> sep <> x) ∷ []) (flags-Occurs m (ground arith))
  ]

module _ {S : Type 0} (h : Host S) (ranges : IsRange h) (s : Settings) (name : String)
    (etcd : EtcdConfig) where
  -- Where ranging over a map gives each key with its value, the command has an option "-e" for
  -- a variable that the environment has and an option "-v" for a path that is mounted, each
  -- with its value.
  pub docker_command-Occurs :
      (variable value path mount : String)
      → lookup variable (envs s name etcd) ≡ some value
      → lookup path (vols s etcd) ≡ some mount
      → Occurs "-e" (variable <> "=" <> value) (docker_command h s name etcd)
        × Occurs "-v" (path <> ":" <> mount) (docker_command h s name etcd)
  unfolding docker_command
  docker_command-Occurs variable value path mount has_value has_mount = (
    Occurs-after fixed (
        Occurs-before (mounts ++ (s.img ∷ [])) (
          flags-Occurs "-e" "=" variable value _ (ranges (envs s name etcd) variable ∙ has_value))),
    Occurs-after fixed (
        Occurs-after (flags "-e" "=" (h.range (envs s name etcd))) (
          Occurs-before (s.img ∷ [])
            (flags-Occurs "-v" ":" path mount _ (ranges (vols s etcd) path ∙ has_mount)))),
  )
    where
      fixed : List String
      fixed = "docker" ∷ "run" ∷ "-d" ∷ "--net=host" ∷ "--privileged" ∷ "--name=calico-node" ∷ []

      mounts : List String
      mounts = flags "-v" ":" (h.range (vols s etcd))
