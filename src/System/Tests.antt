-- ===== src/System/Tests.antt =====
-- Schedules of the daemon and its sessions on concrete inputs.
use loraterm.Text.Lossy.{from_utf8_lossy}
use loraterm.Chunker.Lines.{is_blank}
use loraterm.Chunker.Format.{chunks_from_text}
use loraterm.Common.{
  All, concat, map, if◌then◌else◌, ok, Sublist, arith, ◌≡◌, refl, true, false, List, [], ◌∷◌, none,
  some, replicate,
}
use loraterm.Text.{
  starts_with, trim_start_matches, encode_char, as_bytes, ends_with, trim, eq_text,
  is_ascii_hexdigit, len, Text, Bytes, chars, to_ascii_lowercase, trim_end_matches, is_whitespace,
}
use loraterm.Config.{
  Result, has, find_peer, ValidatedPeer, Whitelist, default_limits, default_chunking,
}
use loraterm.Config.File.{Config}
use loraterm.Sse.{
  classify_inbound, field, classify, parse_event, DmEvent, dm_received, Json, first_backoff,
}
use loraterm.Sse.Loop.{Frame, elapsed, Trace}
use loraterm.Chunker.{replace_cr, chunks_from_bytes, Chunker, new, flush_force, drain_all}
use loraterm.Peer.{
  encode_pty_input, start, idle_secs, round, on_stop, on_tick, on_silence, on_line, farewell, Round,
  chunker_opts,
}
use loraterm.Daemon.{
  find_handle, ensure_peer, is_pubkey, handle_text, handle_dm, handle_sse_event, delivered,
  PeerHandle, is_stale, deliver, insert, remove,
}
use loraterm.System.{
  reloaded, to_ascii_lowercase, touched, takes_line, on_end, begin_round, on_round, turn, running,
  ending, Slot, running, sending, ending, System, Move, stream, turned, left_behind, step, steps,
  boot,
}
use loraterm.System.Fed.{IsFed, lines_to, in_order, payloads}
use loraterm.System.Origin.{messages}
use loraterm.System.Typed.{steps-IsFed}
use loraterm.Sse.Loop
use loraterm.System.Frames.{round_texts}
use loraterm.System.Shells.{steps-run-typed}
use loraterm.Pty.{Writing, writer}
use loraterm.Pty.Lines.{lines_of, IsPlain}
use loraterm.System.Lines.{steps-run-written}
use loraterm.System.Stopped.{Done, AtMost}
use loraterm.System.Revoked.{step-reloaded-revoked}
use loraterm.System.Lost.{step-stream-lost}

-- `strip` for output with no escape sequences in it.
abbrev strip : Bytes → Bytes
strip bytes = bytes

abbrev config : Config
config = record {
  bridge = record { base_url = chars "http://h" };
  identity = record { name = chars "me"; id = none };
  paths = record {
    whitelist = chars "w";
    state_dir = chars "s";
    peer_home_root = chars "p";
    token_file = none;
  };
  limits = default_limits;
  chunking = default_chunking;
}

abbrev key : Text
key = replicate 64 b'a'

abbrev peer : ValidatedPeer
peer = record { pubkey = key; nickname = none; idle_timeout = some 60000; dm_max_chars = none }

abbrev listed : Whitelist
listed = record { entries = peer ∷ [] }

abbrev says : Text → DmEvent
says line = record {
  id = none;
  identity_id = none;
  peer_pubkey_hex = replicate 64 b'A';
  peer_name = none;
  text = some line;
  direction = none;
  payload_type = none;
  ts = none;
}

abbrev typing : Round
typing = record {
  instant = 100;
  now = 1000;
  stop = none;
  tick = false;
  silence = false;
  line = none;
  takes_input = true;
  output = none;
}

-- A message starts a session, whose shell is typed the line; a second one waits in the channel.
abbrev schedule : List (Move Text)
schedule =
    stream 1000 true (dm_received (says (chars "ls")))
    ∷ turned 0 typing
    ∷ turned 0 typing
    ∷ stream 1000 true (dm_received (says (chars "id")))
    ∷ []

abbrev result : System
result = steps strip config schedule (boot listed)

-- Without a word for a minute the session ends, and is about to return.
abbrev closing : List (Move Text)
closing =
    stream 1000 true (dm_received (says (chars "ls")))
    ∷ turned 0 typing
    ∷ turned 0 typing
    ∷ turned 0 (record typing { now = 1061; tick = true })
    ∷ []

abbrev idle : System
idle = steps strip config closing (boot listed)

abbrev later : Move Text
later = stream 1061 true (dm_received (says (chars "id")))

abbrev after : List (Move Text)
after = left_behind 0 ∷ []

abbrev chunker : Chunker
chunker = record {
  opts = chunker_opts peer default_chunking default_limits;
  buf = [];
  last_push = none;
}

-- The first session behind the schedule.
abbrev fed : Slot
fed = record {
  key = key;
  peer = peer;
  phase = running;
  session = record {
    chunker = chunker;
    last_activity = 1000;
    heard = [];
    typed = chars "ls\n" ∷ [];
    offered = [];
  };
  inbox = chars "id" ∷ [];
  told = none;
}

abbrev ended : Slot
ended = record {
  key = key;
  peer = peer;
  phase = ending;
  session = record {
    chunker = chunker;
    last_activity = 1000;
    heard = [];
    typed = chars "ls\n" ∷ [];
    offered = chars "session closed: idle" ∷ [];
  };
  inbox = [];
  told = none;
}

abbrev handle : PeerHandle
handle = record { session = 0; last_activity = 1000 }

steps-schedule : result.slots 0 ≡ some fed
unfolding steps step turn begin_round on_round on_end takes_line touched handle_sse_event handle_dm
    handle_text is_pubkey len to_ascii_lowercase is_ascii_hexdigit find_peer eq_text ensure_peer
    find_handle is_stale deliver insert remove start idle_secs chunker_opts round on_stop on_tick
    on_silence on_line farewell flush_force drain_all encode_pty_input trim ends_with as_bytes
    encode_char trim_start_matches trim_end_matches is_whitespace new
steps-schedule = refl

steps-closing : idle.slots 0 ≡ some ended
unfolding steps step turn begin_round on_round on_end takes_line touched handle_sse_event handle_dm
    handle_text is_pubkey len to_ascii_lowercase is_ascii_hexdigit find_peer eq_text ensure_peer
    find_handle is_stale deliver insert remove start idle_secs chunker_opts round on_stop on_tick
    on_silence on_line farewell flush_force drain_all encode_pty_input trim ends_with as_bytes
    encode_char trim_start_matches trim_end_matches is_whitespace new chunks_from_bytes
    chunks_from_text is_blank from_utf8_lossy replace_cr
steps-closing = refl

steps-IsFed_example :
    IsFed fed (lines_to 0 result.daemon.effects)
    × Sublist (lines_to 0 result.daemon.effects) (messages key schedule)
steps-IsFed_example = steps-IsFed strip config listed schedule 0 fed steps-schedule

-- A decoder for which every text is a message that came in, with itself as the text.
abbrev json : Json
json = record {
  Value = Text;
  from_str = λ s. some s;
  get = λ name value. if eq_text name (chars "direction") then some (chars "in") else none;
  as_str = λ value. some value;
  string = λ s. s;
  from_value = λ value. some (says value);
}

abbrev frame : Text → Frame
frame line = record { event = chars "message"; id = []; data_text = line }

abbrev reading : Loop.Round
reading = record {
  stop = false;
  status = some 200;
  stream =
      Loop.received (frame (chars "ls")) true
      ∷ Loop.received (frame (chars "id")) true
      ∷ Loop.received (frame (chars "w")) true
      ∷ [];
  random = 7;
  wake = elapsed;
}

abbrev trace : Trace json true false
trace = record {
  fed = record {
    sent =
        dm_received (says (chars "ls"))
        ∷ dm_received (says (chars "id"))
        ∷ dm_received (says (chars "w"))
        ∷ [];
    logged = [];
  };
  slept = [];
  is_over = false;
}

run-reading : Loop.run json true false first_backoff (reading ∷ []) ≡ ok trace
unfolding Loop.run Loop.is_success parse_event classify eq_text field to_ascii_lowercase starts_with
    classify_inbound
run-reading = refl

-- The daemon has not handled the third message yet.
steps-run-typed_example :
    (taken : List Text) × (in_order fed.session.typed ≡ payloads taken)
    × Sublist taken (round_texts json true false key (reading ∷ []))
steps-run-typed_example =
    steps-run-typed json true false strip config listed (reading ∷ []) schedule
      (dm_received (says (chars "w")) ∷ []) 0 run-reading refl steps-schedule

-- The writer thread has written the line.
abbrev written : List Writing
written = record { bytes = chars "ls\n"; write_all = true; flush = true } ∷ []

texts-IsPlain : All IsPlain (round_texts json true false key (reading ∷ []))
unfolding Loop.event_of parse_event classify eq_text field to_ascii_lowercase starts_with
    classify_inbound trim trim_start_matches trim_end_matches is_whitespace as_bytes encode_char
texts-IsPlain = ((refl, refl), ((refl, refl), ((refl, refl), tt)))

steps-run-written_example :
    (taken : List Text) × (lines_of [] (concat (writer written).0) ≡ map as_bytes taken)
    × Sublist taken (round_texts json true false key (reading ∷ []))
steps-run-written_example =
    steps-run-written json true false strip config listed (reading ∷ []) schedule
      (dm_received (says (chars "w")) ∷ []) 0 written [] run-reading refl steps-schedule refl
      texts-IsPlain

abbrev nobody : Whitelist
nobody = record { entries = [] }

abbrev dropped : Move Text
dropped = reloaded 1000 (Result.ok nobody)

-- The second message has been taken when the reload comes, and a third one waits in the channel.
abbrev waiting : List (Move Text)
waiting =
    stream 1000 true (dm_received (says (chars "ls")))
    ∷ turned 0 typing
    ∷ turned 0 typing
    ∷ stream 1000 true (dm_received (says (chars "id")))
    ∷ turned 0 typing
    ∷ stream 1000 true (dm_received (says (chars "w")))
    ∷ []

abbrev waits : Slot
waits = record fed { phase = sending (chars "id"); inbox = chars "w" ∷ [] }

abbrev behind : List (Move Text)
behind = turned 0 typing ∷ turned 0 typing ∷ []

steps-waiting : (steps strip config waiting (boot listed)).slots 0 ≡ some waits
unfolding steps step turn begin_round on_round on_end takes_line touched handle_sse_event handle_dm
    handle_text is_pubkey len to_ascii_lowercase is_ascii_hexdigit find_peer eq_text ensure_peer
    find_handle is_stale deliver insert remove start idle_secs chunker_opts round on_stop on_tick
    on_silence on_line farewell flush_force drain_all encode_pty_input trim ends_with as_bytes
    encode_char trim_start_matches trim_end_matches is_whitespace new
steps-waiting = refl

step-reloaded-revoked_example :
    (t : Slot) × ((steps strip config behind
          (step strip config dropped (steps strip config waiting (boot listed)))).slots
        0
      ≡ some t)
    × AtMost (some (chars "id")) (chars "ls\n" ∷ []) t.session.typed
    × ((r r' : Round)
        → Done
            (turn strip config r'
              (turn strip config r t t.phase)
              (turn strip config r t t.phase).phase).phase)
unfolding steps step turn begin_round on_round on_end takes_line touched handle_sse_event handle_dm
    handle_text is_pubkey len to_ascii_lowercase is_ascii_hexdigit find_peer eq_text ensure_peer
    find_handle is_stale deliver insert remove start idle_secs chunker_opts round on_stop on_tick
    on_silence on_line farewell flush_force drain_all encode_pty_input trim ends_with as_bytes
    encode_char trim_start_matches trim_end_matches is_whitespace new has
step-reloaded-revoked_example =
    step-reloaded-revoked strip config listed waiting behind 1000 nobody key handle waits refl refl
      refl refl steps-waiting

-- The message that arrives now is delivered to the session that has ended.
step-stream-lost_example :
    ((step strip config later idle).daemon.effects
      ≡ delivered key 0 (chars "id") ∷ idle.daemon.effects)
    × ((t : Slot) × ((steps strip config after (step strip config later idle)).slots 0 ≡ some t)
        × (t.session.typed ≡ chars "ls\n" ∷ []))
unfolding steps step turn begin_round on_round on_end takes_line touched handle_sse_event handle_dm
    handle_text is_pubkey len to_ascii_lowercase is_ascii_hexdigit find_peer eq_text ensure_peer
    find_handle is_stale deliver insert remove start idle_secs chunker_opts round on_stop on_tick
    on_silence on_line farewell flush_force drain_all encode_pty_input trim ends_with as_bytes
    encode_char trim_start_matches trim_end_matches is_whitespace new
step-stream-lost_example =
    step-stream-lost strip config listed closing after 1061 true (says (chars "id")) (chars "id")
      peer handle ended refl refl refl refl refl steps-closing refl (omega arith)
