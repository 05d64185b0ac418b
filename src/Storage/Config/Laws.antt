-- ===== src/Storage/Config/Laws.antt =====
-- A client is made once.
use my_test_bot_repo.Prelude.{Option, some, ◌≡◌, arith}
use my_test_bot_repo.Result.{ok}
use my_test_bot_repo.Storage.Config.{AzureConfig, AzureSdk, azure_client_lazy}

-- Once a container client is there, every later call of `_client_lazy` returns it and leaves the
-- service alone: the container is created at most once.
pub azure_client_lazy_once :
    (K : AzureSdk) (cfg : AzureConfig) (cred : Option K.Cred) (cached : Option K.Container)
    (s t : K.State) (c : K.Container)
    → (azure_client_lazy K cfg cred cached s).0 ≡ ok c
    → azure_client_lazy K cfg cred (azure_client_lazy K cfg cred cached s).1.0 t
      ≡ (ok c, (some c, t))
unfolding azure_client_lazy
azure_client_lazy_once K cfg cred cached s t c made = ground arith
