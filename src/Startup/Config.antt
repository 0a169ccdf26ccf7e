-- ===== src/Startup/Config.antt =====
-- `Iniconfig` of src/util/iniconfig.cc, `st_env_config` of src/util/configdef.h, and `Logger::init` of
-- src/util/logger.cc.
use mathlib.Core.Option
use shared_bike.Base.{ℕ, ◌%◌, ◌^◌, Bool, true, false, not, Option, none, some, [], Bytes, codes}
use shared_bike.Startup.{Environment}

pub record Config : Type 0 where
  pub db_ip : Bytes
  pub db_port : ℕ
  pub db_user : Bytes
  pub db_pwd : Bytes
  pub db_name : Bytes
  pub svr_port : ℕ

pub record Iniconfig : Type 0 where
  pub config : Config
  pub is_loaded : Bool

-- The default constructors, with what is in the two ports that they leave unset.
unfoldable pub new_config : ℕ → ℕ → Config
new_config db_port svr_port = record {
  db_ip = [];
  db_port = db_port;
  db_user = [];
  db_pwd = [];
  db_name = [];
  svr_port = svr_port;
}

unfoldable pub new_iniconfig : ℕ → ℕ → Iniconfig
unfolding new_config
new_iniconfig db_port svr_port = record { config = new_config db_port svr_port; is_loaded = false }

-- `getInstance`: what `_inst` points to afterwards.
unfoldable pub get_iniconfig : ℕ → ℕ → Option Iniconfig → Iniconfig
unfolding new_iniconfig
get_iniconfig db_port svr_port none = new_iniconfig db_port svr_port
get_iniconfig db_port svr_port (some inst) = inst

unfoldable pub getconfig : Iniconfig → Config
getconfig inst = inst.config

module _ {D : Type 0} (env : Environment D) where
  -- `Logger::init`
  unfoldable pub init_logger : Bytes → Bool
  init_logger path = not (env.configure_throws path)

  -- The strings and numbers that `loadfile` reads, the port of the server as an unsigned short.
  unfoldable pub read_config : D → Config
  read_config ini = record {
    db_ip = env.iniparser_getstring ini (codes "database:ip") (codes "127.0.0.1");
    db_port = env.iniparser_getint ini (codes "databse:port") 3306;
    db_user = env.iniparser_getstring ini (codes "database:user") (codes "root");
    db_pwd = env.iniparser_getstring ini (codes "database:pwd") (codes "123456");
    db_name = env.iniparser_getstring ini (codes "database:db") (codes "shared_bike");
    svr_port = env.iniparser_getint ini (codes "server:port") 9090 % 2 ^ 16;
  }

  unfoldable pub loadfile : Bytes → Iniconfig → Bool × Iniconfig
  unfolding read_config
  loadfile path inst = elim (env.iniparser_load path) [
    | none ↦ (false, inst)
    | some ini ↦ (true, record { config = read_config ini; is_loaded = true })
  ]
