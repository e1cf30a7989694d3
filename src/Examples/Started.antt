-- ===== src/Examples/Started.antt =====
-- The theorems on cmd/apiserver/main.go at a server with a key file.
use logs_tracker.Prelude.{String, ◌≡◌, ◌⊎◌, refl, none, some, [], ◌∷◌, All, Occurs}
use logs_tracker.Prelude.Int.{pos}
use logs_tracker.Prelude.Dict.{get, put}
use logs_tracker.Prelude.Text.{starts_with}
use logs_tracker.Errors.{not_found, ok, err}
use logs_tracker.Signing.{load_keyfile}
use logs_tracker.Api.{
  config_read, role_permissions, rbac_middleware, check_permission, has_permission, validate_token,
  trim_prefix, text_after,
}
use logs_tracker.Api.Server.{
  Request, Backend, serve, handle, find_route, lacks_slash, wrap_rbac, guarded,
}
use logs_tracker.Api.Server.Guarded.{wanted}
use logs_tracker.Commands.{or_default, load_key, unlock}
use logs_tracker.Commands.ApiServer.{
  World, Flags, listens, permissions_of, tokens, key_or_temporary, backend, with_key, with_database,
  default_url, start, answer_all,
}
use logs_tracker.Commands.ApiServer.Unconfigured.{IsEmpty, start-IsEmpty}
use logs_tracker.Commands.ApiServer.Tokens.{start-IsKnown}
use logs_tracker.Examples.Keys.{toy, manager, random}
use logs_tracker.Examples.Details
use logs_tracker.Examples.Server.{decoders, untouched}
use logs_tracker.Examples.Trees

abbrev world : World
world = record {
  runtime = Trees.runtime;
  decoders = decoders;
  crypto = toy;
  random = random;
  keyfiles = ("keys.enc", 8 ∷ []) ∷ [];
  opener_of = λ d. Details.opener;
  clean_path = untouched;
  trim_space = untouched;
  now = 5;
  rfc3339 = λ t. "";
  open_error = λ url. none;
  records_by_key = λ url table key limit offset. ok [];
  find_record = λ url id. err not_found;
  fetch = λ url id. err not_found;
  find_batch = λ url id. err not_found;
  list_batches = λ url limit offset. ok [];
}

abbrev flags : Flags
flags = record {
  postgres_url = "";
  keyfile = "";
  passphrase = "secret";
  admin_token = "t0";
  app_token = "t1";
}

abbrev listening : Backend
listening = backend world default_url "t0" "t1" manager

started : start world flags ≡ listens listening (record { alerts = [] })
unfolding start with_database with_key key_or_temporary load_key unlock load_keyfile get or_default
started = refl

abbrev ask : String → Request
ask path = record {
  method = "GET";
  path = path;
  authorization = "Bearer t0";
  table = "";
  primary_key = "";
  limit = pos 0;
  offset = pos 0;
  decrypt = "";
  body = none;
}

start-IsEmpty_example : All IsEmpty (
    answer_all listening
      (ask "/audit/config" ∷ ask "/audit/alerts/a1/ack" ∷ [])
      (some (record { alerts = [] })))
start-IsEmpty_example =
    start-IsEmpty world flags listening (record { alerts = [] })
      (ask "/audit/config" ∷ ask "/audit/alerts/a1/ack" ∷ []) started

config_wanted : wanted (serve listening (ask "/audit/config") none).1 ≡ some config_read
unfolding serve handle find_route lacks_slash wrap_rbac guarded rbac_middleware check_permission
    has_permission validate_token trim_prefix text_after get put tokens permissions_of
    role_permissions backend starts_with
config_wanted = refl

start-IsKnown_example :
    (let token : String = "t0" in token ≡ or_default "admin-secret-token" "t0")
    ⊎ ((let token : String = "t0" in token ≡ or_default "app-service-token" "t1")
        × Occurs config_read (permissions_of "app_service"))
unfolding trim_prefix text_after
start-IsKnown_example =
    start-IsKnown world flags listening (record { alerts = [] }) (ask "/audit/config") none
      config_read started config_wanted
