-- ===== src/ClientManager.antt =====
-- calicoctl/commands/clientmgr/client.go
use operations_calico_contai.Base.{String, if◌then◌else◌}
use operations_calico_contai.Base.Result.{Result, ◌>>=◌}
use operations_calico_contai.Platform.{Platform}

module _ (p : Platform) where
  -- LoadClientConfig: a file that cannot be found stands for the environment variables.
  unfoldable pub load_client_config : String → Result p.ClientConfig
  load_client_config cf = p.load_config (if p.exists cf then cf else "")

  -- NewClient
  unfoldable pub new_client : String → Result p.Client
  unfolding load_client_config
  new_client cf = do cfg ← load_client_config cf; p.connect cfg
