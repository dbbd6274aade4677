-- ===== src/Sse/Loop/Tests.antt =====
-- Runs of the stream task on concrete inputs.
use loraterm.Common.{◌≡◌, refl, true, false, List, [], ◌∷◌, some, none, ok}
use loraterm.Text.{chars, eq_text, to_ascii_lowercase, starts_with}
use loraterm.Sse.{
  dm_received, parse_event, classify, classify_inbound, field, first_backoff, next_backoff,
}
use loraterm.Sse.Tests.{json, dm}
use loraterm.Sse.Loop.{
  Frame, Next, notified, timed_out, received, gave_up, Round, elapsed, changed, Trace, read_stream,
  run, event_of, on_frame, on_status, on_exit, one_round, pause, is_success, slept_on, sleep_time,
  logged_line,
}
use loraterm.Sse.Loop.Read.{IsRead, read_stream-IsRead}
use loraterm.Sse.Loop.Sleeps.{BacksOff, run-BacksOff}

abbrev message : Frame
message = record { event = chars "message"; id = chars "1"; data_text = chars "{}" }

abbrev keep_alive : Frame
keep_alive = record { event = chars "ping"; id = []; data_text = [] }

-- A message, a comment for which there is no receiver, and then silence.
abbrev stream : List Next
stream = received message true ∷ notified false ∷ received keep_alive false ∷ timed_out ∷ []

read-stream :
    read_stream json true false stream
    ≡ ok (record { sent = dm_received dm ∷ []; logged = [] }, gave_up)
unfolding read_stream on_frame event_of parse_event eq_text classify field to_ascii_lowercase
    starts_with classify_inbound logged_line
read-stream = refl

read_stream-IsRead_example : IsRead json true false stream (dm_received dm ∷ []) gave_up
read_stream-IsRead_example = read_stream-IsRead json true false stream read-stream

abbrev reading : Round
reading = record { stop = false; status = some 200; stream = stream; random = 7; wake = elapsed }

abbrev refused : Round
refused = record { stop = false; status = some 503; stream = []; random = 600; wake = elapsed }

-- The sleep of this round is interrupted by the shutdown.
abbrev interrupted : Round
interrupted = record { stop = false; status = none; stream = []; random = 0; wake = changed true }

abbrev trace : Trace json true false
trace = record {
  fed = record { sent = dm_received dm ∷ []; logged = [] };
  slept = 1007 ∷ 2100 ∷ 4000 ∷ [];
  is_over = true;
}

run-rounds : run json true false first_backoff (reading ∷ refused ∷ interrupted ∷ []) ≡ ok trace
unfolding run one_round on_status on_exit pause is_success slept_on sleep_time next_backoff
    read_stream on_frame event_of parse_event eq_text classify field to_ascii_lowercase starts_with
    classify_inbound logged_line
run-rounds = refl

run-BacksOff_example : BacksOff 0 (reading ∷ refused ∷ interrupted ∷ []) (1007 ∷ 2100 ∷ 4000 ∷ [])
run-BacksOff_example =
    run-BacksOff json true false (reading ∷ refused ∷ interrupted ∷ []) run-rounds
