-- ===== src/Daemon/Start.antt =====
-- src/daemon.rs, what `run` does before its loop: the files, the token and the identity. The
-- operating system and the libraries are a record of parameters.
pub mod Secret
pub mod Identify
pub mod Launch
pub mod Main
mod Tests
use loraterm.Common.{
  ℕ, Bool, true, false, ◌==◌, if◌then◌else◌, List, [], ◌∷◌, ◌++◌, Option, none, some, any, length,
  is_empty, max,
}
use loraterm.Text.{Text, chars, trim, eq_text}
use loraterm.Config.{
  ConfigError, Result, ok, err, ◌>>=◌, map_err, WhitelistFile, Whitelist, load, load_token_file,
  LimitsConfig,
}
use loraterm.Config.File.{Config, load_config}
use loraterm.Client.{ApiError, new}
use loraterm.Client.Http.{Identity, CompanionClient, Request, Response, connect, list_identities}
use loraterm.Daemon.{Daemon}

-- The error of `run` is the first that is met.
pub data StartError : Type 0 where
  from_config : ConfigError → StartError
  from_api : ApiError → StartError
  reading : (path : Text) → StartError
  no_token : StartError
  not_visible : (explicit : Text) → StartError
  no_identity : StartError
  several_identities : ℕ → StartError

-- `std::env`, `std::fs` and `Path::join`; TOML; `HeaderValue::from_str`, the builder of the HTTP
-- client, the network, and JSON.
pub record World : Type 0 where
  pub env_var : Text → Option Text
  pub exists : Text → Bool
  pub metadata : Text → Option ℕ
  pub read_to_string : Text → Option Text
  pub join : Text → Text → Text
  pub parse_config : Text → Option Config
  pub parse_whitelist : Text → Option WhitelistFile
  pub header_value : Text → Result Text Text
  pub build : Bool
  pub send : Request → Option Response
  pub parse_identities : Text → Option (List Identity)

pub record DaemonArgs : Type 0 where
  pub config_path : Text
  pub whitelist_override : Option Text
  pub token_override : Option Text
  pub sse_raw_log : Option Text

abbrev pub Fallible : Type 0 → Type 0
Fallible A = Result StartError A

-- The choice of `resolve_identity` among the identities that are listed.
pub choose_identity : Option Text → List Identity → Fallible Text
choose_identity (some explicit) identities =
    if any (λ i. eq_text i.id explicit) identities then ok explicit else err (not_visible explicit)
choose_identity none [] = err no_identity
choose_identity none (i ∷ []) = ok i.id
choose_identity none (i ∷ j ∷ is) = err (several_identities (length (i ∷ j ∷ is)))

module _ (w : World) where
  -- The token of a file.
  pub file_token : Text → Fallible Text
  file_token path = map_err from_config (load_token_file w.metadata w.read_to_string path)

  -- The four steps of `load_token`, from the last one to the first; each falls through to the next.
  pub config_token : Option Text → Fallible Text
  unfolding file_token
  config_token none = err no_token
  config_token (some path) = file_token path

  pub variable_token : Option Text → Option Text → Fallible Text
  unfolding config_token
  variable_token (some v) token_file =
      if is_empty (trim v) then config_token token_file else ok (trim v)
  variable_token none token_file = config_token token_file

  pub override_token : Option Text → Option Text → Fallible Text
  unfolding variable_token file_token
  override_token (some path) token_file = file_token path
  override_token none token_file = variable_token (w.env_var (chars "LORATERM_TOKEN")) token_file

  pub credential_token : Option Text → Option Text → Option Text → Fallible Text
  unfolding override_token
  credential_token (some dir) override_path token_file =
      let path = w.join dir (chars "loraterm-token") in
      if w.exists path
      then elim (w.read_to_string path) [ some raw ↦ ok (trim raw) | none ↦ err (reading path) ]
      else override_token override_path token_file
  credential_token none override_path token_file = override_token override_path token_file

  pub load_token : Config → Option Text → Fallible Text
  unfolding credential_token
  load_token config override_path =
      credential_token (w.env_var (chars "CREDENTIALS_DIRECTORY")) override_path
        config.paths.token_file

  pub resolve_identity : CompanionClient → Config → Fallible Text
  unfolding choose_identity
  resolve_identity client config = do
    identities ← map_err from_api (list_identities w.send w.parse_identities client)
    choose_identity config.identity.id identities

  pub record Started : Type 0 where
    pub config : Config
    pub whitelist_path : Text
    pub client : CompanionClient
    pub identity_id : Text
    pub daemon : Daemon

  abbrev pub path_or : Option Text → Text → Text
  path_or (some path) default = path
  path_or none default = default

  pub start : DaemonArgs → Fallible Started
  unfolding load_token resolve_identity
  start args = do
    config ← map_err from_config (load_config w.read_to_string w.parse_config args.config_path)
    let whitelist_path = path_or args.whitelist_override config.paths.whitelist
    whitelist ← map_err from_config (load w.read_to_string w.parse_whitelist whitelist_path)
    token_raw ← load_token config args.token_override
    token ← map_err from_api (new token_raw)
    client ← map_err from_api (connect w.header_value w.build config.bridge.base_url token)
    identity_id ← resolve_identity client config
    ok (record {
      config = config;
      whitelist_path = whitelist_path;
      client = client;
      identity_id = identity_id;
      daemon = record { whitelist = whitelist; peers = []; next_session = 0; effects = [] };
    })

-- The limits of the limiter that all senders share: milliseconds between messages, at least 100,
-- and how many may go at once, at least one.
pub global_period : LimitsConfig → ℕ
global_period limits = max limits.global_period 100

pub global_burst : LimitsConfig → ℕ
global_burst limits = max limits.global_burst 1
