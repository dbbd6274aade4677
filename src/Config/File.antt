-- ===== src/Config/File.antt =====
-- src/config.rs, the configuration file: its sections and `Config::load`. `toml::from_str` is a
-- parameter, with the derived decoder that fills in the defaults of the limits and of the chunking.
use loraterm.Common.{Option}
use loraterm.Text.{Text}
use loraterm.Config.{ConfigError, read, parse, Result, ◌>>=◌, ok_or, LimitsConfig, ChunkingConfig}

pub record BridgeConfig : Type 0 where
  pub base_url : Text

-- A `Uuid` is its text.
pub record IdentityConfig : Type 0 where
  pub name : Text
  pub id : Option Text

pub record PathsConfig : Type 0 where
  pub whitelist : Text
  pub state_dir : Text
  pub peer_home_root : Text
  pub token_file : Option Text

pub record Config : Type 0 where
  pub bridge : BridgeConfig
  pub identity : IdentityConfig
  pub paths : PathsConfig
  pub limits : LimitsConfig
  pub chunking : ChunkingConfig

-- `Config::load`
unfoldable pub load_config :
    (Text → Option Text) → (Text → Option Config) → Text → Result ConfigError Config
load_config read_to_string from_str path = do
  raw ← ok_or (read path) (read_to_string path)
  ok_or (parse path) (from_str raw)
