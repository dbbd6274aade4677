-- ===== src/Daemon/Tests.antt =====
-- Runs of the daemon on concrete inputs.
use loraterm.Common.{All, ◌≡◌, ◌⊎◌, refl, true, false, [], ◌∷◌, List, some, none, replicate}
use loraterm.Text.{is_ascii_hexdigit, to_ascii_lowercase, len, Text, chars, eq_text}
use loraterm.Config.{
  collect_set, difference, diff_whitelist, find_peer, ok, ValidatedPeer, Whitelist, has, keys,
}
use loraterm.Sse.{SseEvent, dm_received}
use loraterm.Daemon.{
  DmEvent, revoke_one, remove, revoke, insert, deliver, is_stale, ensure_peer, is_pubkey,
  handle_text, handle_dm, PeerHandle, find_handle, spawned, delivered, shut_down, Daemon, Env,
  handle_sse_event, reload_whitelist, Input, reload, event, shutdown, run,
}
use loraterm.Daemon.Dispatch.{IsAnswered, handle_sse_event-IsAnswered}
use loraterm.Daemon.Trust.{IsServed, handle_sse_event-IsServed}
use loraterm.Daemon.Invariant.{IsTrusted, run-IsTrusted}
use loraterm.Daemon.Revoke.{IsTold, reload_whitelist-IsRevoked}
use loraterm.Daemon.Sessions.End.{SeenClosed, Ended, run-Ended}
use loraterm.Daemon.Silence.{IsSilent, run-IsSilent}

abbrev key_a : Text
key_a = replicate 64 b'a'

abbrev peer_a : ValidatedPeer
peer_a = record { pubkey = key_a; nickname = none; idle_timeout = none; dm_max_chars = none }

abbrev only_a : Whitelist
only_a = record { entries = peer_a ∷ [] }

abbrev nobody : Whitelist
nobody = record { entries = [] }

abbrev idle : Whitelist → Daemon
idle w = record { whitelist = w; peers = []; next_session = 0; effects = [] }

abbrev env : Env
env = record { now = 1000; can_spawn = true; is_closed = λ s. false; accepts = λ s. true }

abbrev message_a : DmEvent
message_a = record {
  id = none;
  identity_id = none;
  peer_pubkey_hex = replicate 64 b'A';
  peer_name = none;
  text = some (chars "ls");
  direction = none;
  payload_type = none;
  ts = none;
}

abbrev list_files : SseEvent Text
list_files = dm_received message_a

abbrev handle_a : PeerHandle
handle_a = record { session = 0; last_activity = 1000 }

abbrev serving : Daemon
serving = record {
  whitelist = only_a;
  peers = (key_a, handle_a) ∷ [];
  next_session = 1;
  effects = delivered key_a 0 (chars "ls") ∷ spawned key_a 0 peer_a ∷ [];
}

-- A first message starts a session and is delivered.
serve-first : handle_sse_event env list_files (idle only_a) ≡ serving
unfolding handle_sse_event handle_dm handle_text is_pubkey len to_ascii_lowercase is_ascii_hexdigit
    find_peer eq_text ensure_peer find_handle is_stale deliver insert
serve-first = refl

handle_sse_event-IsServed_example :
    IsServed list_files (idle only_a) (handle_sse_event env list_files (idle only_a))
handle_sse_event-IsServed_example = handle_sse_event-IsServed env (idle only_a) list_files

abbrev inputs : List (Input Text)
inputs = event env list_files ∷ reload (ok nobody) ∷ event env list_files ∷ []

-- Behind the reload the message of the revoked peer starts nothing.
run-inputs : run inputs (idle only_a) ≡ (
  record {
    whitelist = nobody;
    peers = [];
    next_session = 1;
    effects = shut_down key_a 0 (chars "revoked") ∷ serving.effects;
  },
  false,
)
unfolding run handle_sse_event handle_dm handle_text is_pubkey len to_ascii_lowercase
    is_ascii_hexdigit find_peer reload_whitelist revoke diff_whitelist difference collect_set
    eq_text ensure_peer find_handle has deliver insert is_stale remove revoke_one
run-inputs = refl

run-IsTrusted_example : IsTrusted (run inputs (idle only_a)).0
run-IsTrusted_example = run-IsTrusted inputs (idle only_a) tt

reload_whitelist-IsRevoked_example :
    ((has key_a (keys only_a) ≡ true)
      × (has key_a (keys nobody) ≡ false)
      × IsTold key_a handle_a (reload_whitelist (ok nobody) serving).effects
      × (find_handle key_a (reload_whitelist (ok nobody) serving).peers ≡ none))
    ⊎ (((has key_a (keys only_a) ≡ false) ⊎ (has key_a (keys nobody) ≡ true))
        × (find_handle key_a (reload_whitelist (ok nobody) serving).peers ≡ some handle_a))
unfolding find_handle eq_text
reload_whitelist-IsRevoked_example = reload_whitelist-IsRevoked nobody serving key_a handle_a refl

run-IsSilent_example : IsSilent key_a (idle nobody) (run inputs (idle nobody)).0
unfolding has
run-IsSilent_example = run-IsSilent key_a inputs (idle nobody) refl (tt, (refl, (tt, tt)))

handle_sse_event-IsAnswered_example :
    IsAnswered env key_a
      (chars "ls")
      peer_a
      none
      (idle only_a)
      (handle_sse_event {Value = Text} env list_files (idle only_a))
unfolding is_pubkey len to_ascii_lowercase is_ascii_hexdigit find_peer eq_text find_handle
handle_sse_event-IsAnswered_example =
    handle_sse_event-IsAnswered Text env (idle only_a) message_a (chars "ls") peer_a refl refl refl

abbrev to_the_end : List (Input Text)
to_the_end = event env list_files ∷ shutdown ∷ []

run-to_the_end : (run to_the_end (idle only_a)).1 ≡ true
unfolding run
run-to_the_end = refl

run-Ended_example :
    ((run to_the_end (idle only_a)).0.peers ≡ [])
    × All
        (Ended (SeenClosed to_the_end) (run to_the_end (idle only_a)).0.effects)
        (run to_the_end (idle only_a)).0.effects
run-Ended_example = run-Ended to_the_end (idle only_a) refl run-to_the_end
