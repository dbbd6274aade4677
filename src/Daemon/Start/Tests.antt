-- ===== src/Daemon/Start/Tests.antt =====
-- The start of a daemon in a concrete world.
use loraterm.Common.{
  All, ◌≡◌, ◌↔◌, refl, true, false, List, [], ◌∷◌, ◌++◌, none, some, replicate, if◌then◌else◌,
}
use loraterm.Text.{
  is_ascii_hexdigit, to_ascii_lowercase, Text, chars, eq_text, trim, len, is_ascii_graphic,
  trim_end_matches,
}
use loraterm.Config.{
  ok, WhitelistFile, default_limits, default_chunking, load, load_peers, has, validate_pubkey,
}
use loraterm.Config.File.{Config, load_config}
use loraterm.Client.{check_token, new}
use loraterm.Client.Http.{Identity, CompanionClient, connect, list_identities, is_success, is_slash}
use loraterm.Daemon.{dm_received, handle_sse_event, DmEvent, Effect, SseEvent, Env}
use loraterm.Daemon.Home.{Housed, handle_sse_event-Housed}
use loraterm.Daemon.Start.{
  World, DaemonArgs, Started, start, load_token, resolve_identity, choose_identity, config_token,
  variable_token, override_token, credential_token,
}
use loraterm.Daemon.Start.Secret.{Source, load_token-Source}
use loraterm.Daemon.Start.Identify.{IsChosen, resolve_identity-IsChosen}
use loraterm.Daemon.Start.Launch.{IsStarted, start-IsStarted}

abbrev secret : Text
secret = replicate 32 b's'

abbrev me : Identity
me = record {
  id = chars "1";
  name = chars "bot";
  scope = [];
  pubkey_hex = none;
  archived_at = none;
}

abbrev config : Config
config = record {
  bridge = record { base_url = chars "http://h/" };
  identity = record { name = chars "bot"; id = none };
  paths = record {
    whitelist = chars "w";
    state_dir = chars "s";
    peer_home_root = chars "p";
    token_file = none;
  };
  limits = default_limits;
  chunking = default_chunking;
}

abbrev key : Text
key = replicate 64 b'a'

abbrev file : WhitelistFile
file = record {
  default_idle_timeout = none;
  default_dm_max_chars = none;
  peers = (record { pubkey = key; nickname = none; idle_timeout = none; dm_max_chars = none }) ∷ [];
}

-- The token is in the environment; every file can be read; the service lists one identity.
abbrev world : World
world = record {
  env_var = λ name. if eq_text name (chars "LORATERM_TOKEN") then some secret else none;
  exists = λ path. false;
  metadata = λ path. none;
  read_to_string = λ path. some path;
  join = λ dir name. dir ++ name;
  parse_config = λ raw. some config;
  parse_whitelist = λ raw. some file;
  header_value = λ s. ok s;
  build = true;
  send = λ request. some (record { status = 200; text = none; bytes = some [] });
  parse_identities = λ bytes. some (me ∷ []);
}

abbrev args : DaemonArgs
args = record {
  config_path = chars "c";
  whitelist_override = none;
  token_override = none;
  sse_raw_log = none;
}

abbrev client : CompanionClient
client = record { base_url = chars "http://h"; authorization = chars "Bearer " ++ secret }

abbrev started : Started world
started = record {
  config = config;
  whitelist_path = chars "w";
  client = client;
  identity_id = chars "1";
  daemon = record {
    whitelist = record {
      entries =
          (record { pubkey = key; nickname = none; idle_timeout = none; dm_max_chars = none }) ∷ [];
    };
    peers = [];
    next_session = 0;
    effects = [];
  };
}

start-world : start world args ≡ ok started
unfolding start load_token config_token variable_token override_token credential_token
    resolve_identity choose_identity load_config load load_peers validate_pubkey len trim eq_text
    has check_token new is_ascii_graphic connect is_slash trim_end_matches list_identities
    is_success is_ascii_hexdigit to_ascii_lowercase
start-world = refl

load_token-Source_example :
    (load_token world config none ≡ ok secret)
    ↔ Source world secret
        (world.env_var (chars "CREDENTIALS_DIRECTORY"))
        none
        (world.env_var (chars "LORATERM_TOKEN"))
        config.paths.token_file
load_token-Source_example = load_token-Source world config none secret

resolve_identity-IsChosen_example : (resolve_identity world client config ≡ ok (chars "1")) ↔ (
    (is : List Identity) × (list_identities world.send world.parse_identities client ≡ ok is)
    × IsChosen config.identity.id is (chars "1"))
resolve_identity-IsChosen_example = resolve_identity-IsChosen world client config (chars "1")

start-IsStarted_example : IsStarted world args started
start-IsStarted_example = start-IsStarted world args started start-world

abbrev quiet : Env
quiet = record { now = 0; can_spawn = true; is_closed = λ n. false; accepts = λ n. true }

abbrev message : DmEvent
message = record {
  id = none;
  identity_id = none;
  peer_pubkey_hex = replicate 64 b'A';
  peer_name = none;
  text = some (chars "ls");
  direction = none;
  payload_type = none;
  ts = none;
}

abbrev list_files : SseEvent Text
list_files = dm_received message

handle_sse_event-Housed_example :
    (new : List Effect) × ((handle_sse_event quiet list_files started.daemon).effects
      ≡ new ++ started.daemon.effects)
    × All (Housed world.join config started.daemon.whitelist) new
handle_sse_event-Housed_example =
    handle_sse_event-Housed world.join config quiet started.daemon list_files
