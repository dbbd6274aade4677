-- ===== src/Peer/Tests.antt =====
-- Runs of a session on concrete inputs.
use loraterm.Common.{
  zero, suc, Option, ℕ, arith, ◌≤◌, ◌≡◌, ◌⊎◌, ◌↔◌, refl, true, false, [], ◌∷◌, List, none, some, ok,
  replicate,
}
use loraterm.Text.{Text, trim, to_ascii_lowercase, eq_text, Bytes, chars}
use loraterm.Config.{ValidatedPeer, default_limits, default_chunking}
use loraterm.Peer.{
  try_marker, Session, Round, run, start, idle_secs, chunker_opts, encode_pty_input, TrySend, full,
  sent, enqueue_chunk, backlog,
}
use loraterm.Text.{
  encode_char, eq_text, to_ascii_lowercase, trim, ends_with, as_bytes, split_at, nth_index, rfind,
  is_whitespace, trim_start_matches, trim_end_matches,
}
use loraterm.Text.Lossy.{from_utf8_lossy}
use loraterm.Chunker.{
  new, push, flush_force, drain_all, chunks_from_bytes, last_newline, replace_cr,
}
use loraterm.Chunker.Format.{chunks_from_text, inner_max, finish_chunks}
use loraterm.Chunker.Lines.{
  is_blank, cap_lines, count_lines, collapse_blank_lines, collapse_lines, split_inclusive,
}
use loraterm.Chunker.Split.{split_into_char_chunks}
use loraterm.Peer.{round, on_stop, on_tick, on_silence, on_line, on_output, farewell}
use loraterm.Peer.Output.{IsComplete, run-IsComplete}
use loraterm.Peer.Sender.{drain, offer_all, try_offer_all}
use loraterm.Client.Http.{Request, Response}
use loraterm.Peer.Sender.Task.{SenderTask, IsSent, send_all}
use loraterm.Peer.Sender.Farewell.{fresh, run-posted}
use loraterm.Peer.Typed.{is_interrupt, IsLine, encode_pty_input-IsLine}
use loraterm.Peer.Backlog.{Queued, enqueue_chunk_lem}

-- `strip` for output with no escape sequences in it.
abbrev strip : Bytes → Bytes
strip bytes = bytes

abbrev peer : ValidatedPeer
peer = record {
  pubkey = replicate 64 b'a';
  nickname = none;
  idle_timeout = some 60000;
  dm_max_chars = none;
}

abbrev quiet : Round
quiet = record {
  instant = 100;
  now = 1000;
  stop = none;
  tick = false;
  silence = false;
  line = none;
  takes_input = true;
  output = none;
}

-- A line is typed, the shell answers, and a minute later the session ends.
abbrev rounds : List Round
rounds =
    (record quiet { line = some (some (chars "ls")) })
    ∷ (record quiet { instant = 200; output = some (some (chars "a.txt\n$ ")) })
    ∷ (record quiet { now = 1061; tick = true; output = some (some (chars "unread")) })
    ∷ []

abbrev ended : Session
ended = record {
  chunker = record {
    opts = chunker_opts peer default_chunking default_limits;
    buf = [];
    last_push = none;
  };
  last_activity = 1000;
  heard = chars "a.txt\n$ ";
  typed = chars "ls\n" ∷ [];
  offered = chars "a.txt" ∷ chars "$ " ∷ chars "session closed: idle" ∷ [];
}

run-rounds :
    run strip
      (idle_secs peer default_limits)
      rounds
      (start peer default_chunking default_limits 1000)
    ≡ ok (ended, true)
unfolding run round on_stop on_tick on_silence on_line on_output start idle_secs chunker_opts
    encode_pty_input new push flush_force drain_all chunks_from_bytes last_newline replace_cr
    from_utf8_lossy farewell eq_text to_ascii_lowercase trim ends_with as_bytes encode_char
    chunks_from_text is_blank cap_lines count_lines collapse_blank_lines collapse_lines
    split_inclusive split_into_char_chunks inner_max finish_chunks split_at nth_index rfind
    is_whitespace trim_start_matches trim_end_matches
run-rounds = refl

run-IsComplete_example : IsComplete strip (chunker_opts peer default_chunking default_limits) ended
run-IsComplete_example =
    run-IsComplete strip peer default_chunking default_limits 1000 rounds run-rounds

encode_pty_input-IsLine_example :
    ((encode_pty_input (chars " [CTRL-C]\n") ≡ 3 ∷ [])
      ↔ (is_interrupt (chars " [CTRL-C]\n") ≡ true))
    × ((is_interrupt (chars " [CTRL-C]\n") ≡ true)
        ⊎ IsLine (chars " [CTRL-C]\n") (encode_pty_input (chars " [CTRL-C]\n")))
encode_pty_input-IsLine_example = encode_pty_input-IsLine (chars " [CTRL-C]\n")

interrupts : is_interrupt (chars " [CTRL-C]\n") ≡ true
unfolding eq_text to_ascii_lowercase trim
interrupts = refl

abbrev outcomes : List TrySend
outcomes = full ∷ full ∷ sent ∷ []

enqueue-outcomes : enqueue_chunk (chars "a") outcomes ≡ (backlog ∷ [], 3)
unfolding enqueue_chunk try_marker
enqueue-outcomes = refl

enqueue_chunk_lem_example :
    ((enqueue_chunk (chars "a") outcomes).1 ≤ 6)
    × Queued (chars "a") outcomes (enqueue_chunk (chars "a") outcomes).0
enqueue_chunk_lem_example = enqueue_chunk_lem (chars "a") outcomes

abbrev in_the_loop : List (Text × (ℕ → ℕ))
in_the_loop = (chars "a.txt", λ i. 0) ∷ []

abbrev at_the_end : List (Text × ℕ)
at_the_end = (chars "$ ", 1) ∷ (chars "session closed: idle", 0) ∷ []

abbrev task : SenderTask
task = record {
  client = record { base_url = chars "http://h"; authorization = chars "Bearer s" };
  identity_id = chars "me";
  peer_pubkey = replicate 64 b'a';
}

-- The second request is not answered.
abbrev answers : ℕ → Request → Option Response
answers zero request = some (record { status = 200; text = none; bytes = none })
answers (suc zero) request = none
answers (suc (suc n)) request = some (record { status = 200; text = none; bytes = none })

run-posted_example :
    IsSent task answers 0 ended.offered (
      send_all task answers 0
        (drain (try_offer_all at_the_end (offer_all in_the_loop (fresh 64)))).taken)
    × IsComplete strip (chunker_opts peer default_chunking default_limits) ended
run-posted_example =
    run-posted strip peer default_chunking default_limits 1000 rounds in_the_loop at_the_end task
      answers run-rounds refl (omega arith)
