-- ===== src/Commands/ApiServer/Listening.antt =====
-- What cmd/apiserver/main.go listens with, when it does.
use logs_tracker.Prelude.{String, ◌≡◌, Option, none, some, []}
use logs_tracker.Errors.{GoError}
use logs_tracker.Signing.{LocalKeyManager}
use logs_tracker.Alerting.{MemorySink}
use logs_tracker.Api.Server.{Backend}
use logs_tracker.Commands.{or_default}
use logs_tracker.Commands.ApiServer.{Flags, World, listens, backend, with_key, with_database, start}

module _ (w : World) (f : Flags) (s : Backend) (sink : MemorySink) where
  -- The handlers' state: no alert, and what the flags say.
  abbrev pub Listens : Type 0
  Listens =
      (url : String) × (m : LocalKeyManager) × (backend w url
          (or_default "admin-secret-token" f.admin_token)
          (or_default "app-service-token" f.app_token) m
        ≡ s)
      × (record { alerts = [] } ≡ sink)

  with_key-listens :
      (url : String) (o : Option LocalKeyManager) → with_key w url f o ≡ listens s sink → Listens
  unfolding with_key
  with_key-listens url none e = cc
  with_key-listens url (some m) e = (url, m, cc, cc)

  with_database-listens :
      (url : String) (o : Option GoError) → with_database w url f o ≡ listens s sink → Listens
  unfolding with_database
  with_database-listens url (some x) e = cc
  with_database-listens url none e = with_key-listens url _ e

  pub start-listens : start w f ≡ listens s sink → Listens
  unfolding start
  start-listens e = with_database-listens _ _ e
