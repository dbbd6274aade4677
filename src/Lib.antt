-- ===== src/Lib.antt =====
-- loraterm: a daemon that gives whitelisted peers of a LoRa mesh a shell over direct messages.
--
-- A stream of server-sent events brings messages (src/api/sse.rs). The daemon (src/daemon.rs) drops
-- what is not from a peer on its whitelist (src/config.rs), starts a session for a peer that has none
-- (src/peer.rs) and hands it the line. The session types it into a shell behind a terminal
-- (src/pty.rs). The shell's output is cut into chunks that fit a message (src/chunker.rs), queued, and
-- posted one by one (src/api/client.rs). A signal (src/signals.rs) makes the daemon read the whitelist
-- again and end the sessions of peers that are no longer on it, or end itself.
--
-- The files:
--   Common   Boolean tests, lists measured by native numbers, and `Run`, the outcome of code that may
--            panic.
--   Text     `str` as a list of code points with the byte indices of its UTF-8 form: `len`,
--            `split_at`, `rfind`, `trim`, `String::from_utf8_lossy`, decimal numbers. Text.Laws,
--            Text.Decimal and Text.Equality have their laws.
--   Chunker  src/chunker.rs. `Chunker` is the struct and `push`, `maybe_flush`, `flush_force`,
--            `next_deadline` are its methods; Chunker.Split is `split_into_char_chunks`,
--            Chunker.Lines is `cap_lines` and `collapse_blank_lines`, Chunker.Format is
--            `chunks_from_text`. Their proofs are in the modules below each.
--   Config   src/config.rs. `load`, `get`, `contains` are `Whitelist`'s methods; `diff_whitelist`,
--            `validate_pubkey` and `load_token_file` have the source's names. Config.File is the
--            configuration file with `Config::load`.
--   Sse      src/api/sse.rs. `parse_event`, with its branches as functions, and `sleeps`, the
--            backoffs of the reconnecting loop alone. Sse.Loop is `SseStream::run` as a whole:
--            `run` is the outer loop, `read_stream` the loop over the frames of one stream, and
--            `sleep_time` and `slept_on` are `sleep_with_shutdown`. Sse.Task is the opening of that
--            function: `SseStream`, its request and its raw log.
--   Daemon   src/daemon.rs. `handle_sse_event`, `reload_whitelist` and the loop of `run`, over a
--            registry that stands for the `HashMap` of `PeerHandle`s. Daemon.Start is what `run` does
--            before its loop, with `load_token` and `resolve_identity`, and Daemon.Start.Main is
--            src/main.rs. Daemon.Sessions follows the sessions through a run, Daemon.Home is what
--            `spawn_peer` is called with.
--   Peer     src/peer.rs. `run` is the loop of `PeerActor::run` over rounds, with a function
--            per branch of its `select!`; `encode_pty_input` and `enqueue_chunk` have the source's
--            names. Peer.Sender is `SenderTask` and the bounded queue in front of it, with the offers
--            of the loop (`offer_all`) and of the end of the session (`try_offer_all`);
--            Peer.Sender.Task is the loop of the sender, with what it does when `send_dm` fails.
--            Peer.Spawn is `spawn_peer`, `PeerHandle::shutdown` and the ending of the child process.
--   Client   src/api/client.rs. `new` is `Token::new`; `map_status` has the source's name.
--            Client.Http is `CompanionClient`: `connect` is its `new`, and `list_identities` and
--            `send_dm` have the source's names.
--   System   src/daemon.rs with src/peer.rs. The daemon and the sessions that it starts: a step is one
--            event, reload or end of the daemon, or one round, or the return, of a session, in any
--            order. `step` is one of these, `steps` a schedule. `turn` is a round of
--            `PeerActor::run`, or the end of one that waits with a line; `apply` is what the calls
--            of the daemon do to the channels of a session. System.Frames, System.Shells and
--            System.Lines put the task of the stream in front and the threads of the terminal behind.
--   Signals  src/signals.rs. `spawn_signal_task` has the source's name, `forward` is its loop.
--   Pty      src/pty.rs. `spawn_bash` is the chain of calls up to the threads, `bash_command` what is
--            said of the shell to its builder; `reader` and `writer` are the loops of the threads.
--
-- How the code is read. A `usize` is a native number: no length here reaches 2 ^ 64, and no
-- subtraction of the source goes below 0 (`saturating_sub` does so by definition). Durations
-- are numbers of milliseconds, and times of activity seconds. A `str` slice off a character boundary
-- is `panicked`. The loop of `split_into_char_chunks` runs on one round more than the text has
-- characters, and every round takes at least one; that this is enough is a theorem below. A number
-- `n` is printed on `n + 1` rounds, one for a digit. The registry is an association list with
-- at most one binding for a key. What a daemon does to its sessions is a list of effects, the newest
-- first, and what it finds out about them in a step (whether a shell can be started, whether a channel
-- is closed or full, the time) is its `Env`. A run is a list of inputs in the order in which the loop
-- receives them, and a round of a session says which branches of its `select!` are ready. A task that
-- waits for the outside (the stream, a signal, a read of the terminal) takes what it meets, in order,
-- as its input, and says at the end whether it has returned. The sender and the session share a
-- queue: how often the sender is scheduled before each attempt to queue a chunk is an input. In
-- System the `Env` of an event is read off the sessions at the start of its step, in which no session
-- moves; a session that has returned or has panicked has closed its channel, one whose loop has ended
-- has not. A session is a number in the order of their starts, and none is removed. A round
-- that takes a line is two steps, one that takes the line off the channel and one at which the channel
-- of the terminal takes its payload or is found closed; between them the session polls nothing, and
-- the daemon and the other sessions go on. Any other round is a single step.
--
-- Parameters: `strip_ansi_escapes::strip`; the parser of the command line; reading a file and its
-- mode; `toml::from_str`; `serde_json` with the derived decoder of `DmEvent`, as the record `Json`;
-- environment variables, header values, the HTTP client, the network and paths, as the record
-- `World`; the builder of a command; the terminal and the child, as the record `PtySystem` and the
-- answers of `try_wait`; bounded channels; the rate limiters, which only wait. A property states
-- what it takes them to return.
--
-- What a session is said to be typed is what it hands to the channel of its terminal, which holds 64
-- payloads; what the thread behind that channel writes is `writer`. In the `Env` of a step
-- `spawn_peer` returns, with a shell or an error; with a channel of depth 0 it panics, which
-- Peer.Spawn shows.
--
-- Not modelled: what the terminal and the shell make of the bytes that are written (the line
-- discipline, control characters, the keys of readline); the mode of a home directory and the
-- directory for the state, whose failure is ignored; `Quota` and `RateLimiter`, beyond the numbers
-- that they are given; the runtime and the set-up of the log. Log lines are left out, but for the
-- one that may panic and those of the raw log.
pub mod Common
pub mod Text
pub mod Chunker
pub mod Config
pub mod Sse
pub mod Daemon
pub mod Peer
pub mod Client
pub mod Signals
pub mod Pty
pub mod System
