-- ===== src/Server/Config.antt =====
-- server/src/config.ts.
use nexus_queue.Prelude.Tests.{or_else}
use nexus_queue.Prelude.Texts.{Text, text}
use nexus_queue.Prelude.Numeric.{Numeric, read_number}
use nexus_queue.Shared.Env.{Env, require}
use nexus_queue.Program.World.{Result, ok}

pub record ServerConfig : Type 0 where
  pub redis_url : Text
  pub database_url : Text
  pub port : Numeric
  pub host : Text

unfoldable pub load_server_config : Env → Result ServerConfig
load_server_config env =
    require (env (text "REDIS_URL")) (text "REDIS_URL is required") λ redis_url.
      require (env (text "DATABASE_URL")) (text "DATABASE_URL is required") λ database_url.
        ok (record {
          redis_url = redis_url;
          database_url = database_url;
          port = read_number (or_else (env (text "SERVER_PORT")) (text "3000"));
          host = or_else (env (text "SERVER_HOST")) (text "0.0.0.0");
        })
