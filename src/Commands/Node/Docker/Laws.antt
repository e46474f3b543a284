-- ===== src/Commands/Node/Docker/Laws.antt =====
-- What the container of the node is given: its environment and the files that are mounted in it.
use operations_calico_contai.Base.{
  String, ◌≡◌, ◌≢◌, refl, sym, ap, ◌∙◌, Bool, true, false, Option, some, [], ◌∷◌, arith, ◌==◌,
  eq_iff, if◌then◌else◌,
}
use operations_calico_contai.Base.Dict.{Dict, lookup, insert, lookup-insert}
use operations_calico_contai.Commands.Node.Run.Validation.{Settings, EtcdConfig}
use operations_calico_contai.Commands.Node.Docker.{
  etcd_key_node_file, etcd_cert_node_file, etcd_ca_cert_node_file, insert_if, first_envs,
  endpoint_envs, has_ca, has_key_pair, envs, first_vols, vols,
}

differ : (a b : String) → (a == b) ≡ false → a ≢ b
differ a b distinct h = ground (arith, eq_iff a b)

-- No key has the value.
record Avoids (x : String) (m : Dict String) : Type 0 where
  never : (path : String) → lookup path m ≢ some x

insert-Avoids :
    {x : String} {m : Dict String} (k v : String)
    → (v == x) ≡ false
    → Avoids x m
    → Avoids x (insert k v m)
insert-Avoids {x} {m} k v other avoids = record {
  never = λ path h.
      ground (arith, lookup-insert {V = String} k path v m, avoids.never path, differ v x other);
}

lookup-insert_if :
    (b : Bool) (k j v : String) (m : Dict String)
    → lookup j (insert_if b k v m) ≡ (if (if b then k == j else false) then some v else lookup j m)
unfolding insert_if
lookup-insert_if true k j v m = lookup-insert k j v m
lookup-insert_if false k j v m = refl

module _ (s : Settings) (etcd : EtcdConfig) where
  -- What each path of the host is mounted as, the later tests of the code first.
  abbrev pub mounted_at : String → Option String
  mounted_at path =
      if (if has_key_pair etcd then etcd.cert_file == path else false)
      then some etcd_cert_node_file
      else if (if has_key_pair etcd then etcd.key_file == path else false)
      then some etcd_key_node_file
      else if (if has_ca etcd then etcd.ca_cert_file == path else false)
      then some etcd_ca_cert_node_file
      else lookup path (first_vols s)

  pub vols-lookup : (path : String) → lookup path (vols s etcd) ≡ mounted_at path
  unfolding vols
  vols-lookup path =
      lookup-insert_if (has_key_pair etcd) etcd.cert_file path _ _
      ∙ ap
          (λ rest.
            if (if has_key_pair etcd then etcd.cert_file == path else false)
            then some etcd_cert_node_file
            else rest)
          (lookup-insert_if (has_key_pair etcd) etcd.key_file path _ _
            ∙ ap
                (λ rest.
                  if (if has_key_pair etcd then etcd.key_file == path else false)
                  then some etcd_key_node_file
                  else rest)
                (lookup-insert_if (has_ca etcd) etcd.ca_cert_file path _ _))

  -- The container is given the etcd endpoints, and the authority and the scheme if the
  -- endpoints are blank and blanks otherwise.
  pub envs-endpoints :
      (name : String)
      → (lookup "ETCD_ENDPOINTS" (envs s name etcd) ≡ some etcd.endpoints)
        × (lookup "ETCD_AUTHORITY" (envs s name etcd)
            ≡ some (if etcd.endpoints == "" then etcd.authority else ""))
        × (lookup "ETCD_SCHEME" (envs s name etcd)
            ≡ some (if etcd.endpoints == "" then etcd.scheme else ""))
  unfolding envs endpoint_envs lookup insert
  envs-endpoints name = ground (arith, eq_iff etcd.endpoints "")

  log_dir-Avoids : Avoids etcd_key_node_file ((s.log_dir, "/var/log/calico") ∷ [])
  unfolding lookup
  log_dir-Avoids = record {
    never = λ path h. ground (arith, differ "/var/log/calico" etcd_key_node_file refl);
  }

  first_vols-Avoids : Avoids etcd_key_node_file (first_vols s)
  unfolding first_vols
  first_vols-Avoids = insert-Avoids "/var/run/docker.sock" "/var/run/docker.sock" refl (
      insert-Avoids "/run/docker/plugins" "/run/docker/plugins" refl (
        insert-Avoids "/lib/modules" "/lib/modules" refl
          (insert-Avoids "/var/run/calico" "/var/run/calico" refl log_dir-Avoids)))

  key_env :
      (name : String)
      → has_key_pair etcd ≡ true
      → lookup "ETCD_KEY_FILE" (envs s name etcd) ≡ some etcd_key_node_file
  unfolding envs insert_if
  key_env name pair =
      rw (pair, envs)
        (lookup-insert "ETCD_CERT_FILE" "ETCD_KEY_FILE" etcd_cert_node_file _
          ∙ lookup-insert "ETCD_KEY_FILE" "ETCD_KEY_FILE" etcd_key_node_file (
              insert_if (has_ca etcd) "ETCD_CA_CERT_FILE" etcd_ca_cert_node_file
                (endpoint_envs etcd (first_envs s name))))

  not_mounted :
      (path : String)
      → has_key_pair etcd ≡ true
      → etcd.key_file ≡ etcd.cert_file
      → mounted_at path ≢ some etcd_key_node_file
  not_mounted path pair same h = ground (
    arith,
    first_vols-Avoids.never path,
    ap (λ k. k == path) same,
    differ etcd_cert_node_file etcd_key_node_file refl,
    differ etcd_ca_cert_node_file etcd_key_node_file refl,
  )

  one_file-has_key_pair :
      etcd.key_file ≡ etcd.cert_file → etcd.key_file ≢ "" → has_key_pair etcd ≡ true
  unfolding has_key_pair
  one_file-has_key_pair same some_of =
      ground (arith, eq_iff etcd.key_file "", eq_iff etcd.cert_file "")

  -- If the key and the certificate of etcd are in one file, whose name is not blank, then the
  -- container is told of a key at a path that no path of the host is mounted at.
  pub vols-loses_key :
      (name path : String)
      → etcd.key_file ≡ etcd.cert_file
      → etcd.key_file ≢ ""
      → (lookup "ETCD_KEY_FILE" (envs s name etcd) ≡ some etcd_key_node_file)
        × (lookup path (vols s etcd) ≢ some etcd_key_node_file)
  vols-loses_key name path same some_of =
      let pair = one_file-has_key_pair same some_of in
      (key_env name pair, λ h. not_mounted path pair same (sym (vols-lookup path) ∙ h))
