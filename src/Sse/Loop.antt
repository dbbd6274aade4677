-- ===== src/Sse/Loop.antt =====
-- src/api/sse.rs, `SseStream::run`: the reconnecting loop, the frames of a stream, and the end. What
-- the network, the clock and the shutdown channel do in a round is its input. Sleeps are milliseconds.
pub mod Read
pub mod Sleeps
pub mod Ends
mod Tests
use loraterm.Common.{
  ℕ, ◌+◌, ◌*◌, ◌%◌, Bool, true, false, not, ◌&&◌, List, [], ◌∷◌, ◌++◌, Option, none, some, Run, ok,
  ◌>>=◌, leb, if◌then◌else◌, is_empty,
}
use loraterm.Text.{Text, chars}
use loraterm.Sse.{SseEvent, comment, Json, parse_event, first_backoff, next_backoff}

-- A frame of `eventsource`.
pub record Frame : Type 0 where
  pub event : Text
  pub id : Text
  pub data_text : Text

-- What the `select!` over a stream meets: the shutdown channel changed to a value, the watchdog
-- tripped, the stream ended, a frame was broken, or a frame came; the flag says whether the channel
-- for events still has a receiver.
pub data Next : Type 0 where
  notified : Bool → Next
  timed_out ended broken : Next
  received : Frame → (is_open : Bool) → Next

-- How the loop over a stream is left: the task returns, or the stream is given up; `waiting` is that
-- it has met all there is.
pub data Exit : Type 0 where
  returned gave_up waiting : Exit

-- What the task did: the events it sent and the lines of the raw log.
pub record Fed (Value : Type 0) : Type 0 where
  pub sent : List (SseEvent Value)
  pub logged : List Text

pub log_line : Frame → Text
log_line f =
    chars "event="
    ++ (f.event ++ (chars " id=" ++ (f.id ++ (chars " data=" ++ (f.data_text ++ chars "\n")))))

-- How a sleep ends: its time is up, or the shutdown channel changed to a value.
pub data Wake : Type 0 where
  elapsed : Wake
  changed : Bool → Wake

-- A round: the shutdown flag as it starts, the status of the answer, if there is one, what the
-- stream brings, the random number of the jitter, and how the sleep ends.
pub record Round : Type 0 where
  pub stop : Bool
  pub status : Option ℕ
  pub stream : List Next
  pub random : ℕ
  pub wake : Wake

-- `StatusCode::is_success`
unfoldable pub is_success : ℕ → Bool
is_success status = leb 200 status && leb status 299

-- The sleep of `sleep_with_shutdown`, and what it returns.
unfoldable pub sleep_time : ℕ → ℕ → ℕ
sleep_time backoff random = backoff * 1000 + random % 500

unfoldable pub slept_on : Wake → Bool
slept_on elapsed = true
slept_on (changed flag) = not flag

module _ (json : Json) (debug raw_log : Bool) where
  open json use {Value}

  abbrev pub nothing : Fed Value
  nothing = record { sent = []; logged = [] }

  unfoldable pub logged_line : Frame → List Text
  logged_line f = if raw_log then log_line f ∷ [] else []

  -- The event for a frame.
  unfoldable pub event_of : Frame → Run (SseEvent Value)
  event_of f =
      if is_empty f.data_text
      then ok (comment f.event)
      else parse_event json debug f.event f.data_text

  -- One thing more in front of what the rest of a loop does.
  abbrev pub ahead : List (SseEvent Value) → List Text → Fed Value × Exit → Fed Value × Exit
  ahead events lines (fed, exit) =
      (record { sent = events ++ fed.sent; logged = lines ++ fed.logged }, exit)

  -- A frame with the rest of the loop. A comment that cannot be sent is dropped, an event that cannot
  -- be sent ends the task.
  unfoldable pub on_frame : Frame → Bool → Run (Fed Value × Exit) → Run (Fed Value × Exit)
  unfolding event_of logged_line
  on_frame f is_open rest = do
    event ← event_of f
    if is_open
        then (rest >>= λ r. ok (ahead (event ∷ []) (logged_line f) r))
        else if is_empty f.data_text
        then (rest >>= λ r. ok (ahead [] (logged_line f) r))
        else ok (record { sent = []; logged = logged_line f }, returned)

  -- The inner loop.
  unfoldable pub read_stream : List Next → Run (Fed Value × Exit)
  unfolding on_frame
  read_stream [] = ok (nothing, waiting)
  read_stream (notified true ∷ ns) = ok (nothing, returned)
  read_stream (notified false ∷ ns) = read_stream ns
  read_stream (timed_out ∷ ns) = ok (nothing, gave_up)
  read_stream (ended ∷ ns) = ok (nothing, gave_up)
  read_stream (broken ∷ ns) = ok (nothing, gave_up)
  read_stream (received f is_open ∷ ns) = on_frame f is_open (read_stream ns)

  -- What a run did, the sleeps it made, and whether the task has returned.
  pub record Trace : Type 0 where
    pub fed : Fed Value
    pub slept : List ℕ
    pub is_over : Bool

  abbrev pub over : Trace
  over = record { fed = nothing; slept = []; is_over = true }

  -- Behind a round that did `fed`: the sleep, and the rest of the loop unless it was interrupted.
  unfoldable pub pause : Fed Value → ℕ → Round → Run Trace → Run Trace
  pause fed backoff r rest =
      if slept_on r.wake
      then (rest >>= λ t. ok (record {
        fed = record { sent = fed.sent ++ t.fed.sent; logged = fed.logged ++ t.fed.logged };
        slept = sleep_time backoff r.random ∷ t.slept;
        is_over = t.is_over;
      }))
      else ok (record { fed = fed; slept = sleep_time backoff r.random ∷ []; is_over = true })

  -- A stream that was left, with the rest of the loop.
  unfoldable pub on_exit : Round → Fed Value × Exit → Run Trace → Run Trace
  unfolding pause
  on_exit r (fed, gave_up) rest = pause fed first_backoff r rest
  on_exit r (fed, returned) rest = ok (record { fed = fed; slept = []; is_over = true })
  on_exit r (fed, waiting) rest = ok (record { fed = fed; slept = []; is_over = false })

  -- A round, with the rest of the loop: `again` behind a round that failed, `reset` behind one that
  -- read a stream. The second function takes it up with the status of the answer, if there is one.
  unfoldable pub on_status : Round → ℕ → Option ℕ → Run Trace → Run Trace → Run Trace
  unfolding pause on_exit read_stream
  on_status r backoff none again reset = pause nothing backoff r again
  on_status r backoff (some status) again reset =
      if is_success status
      then (read_stream r.stream >>= λ end. on_exit r end reset)
      else pause nothing backoff r again

  unfoldable pub one_round : Round → ℕ → Run Trace → Run Trace → Run Trace
  unfolding on_status
  one_round r backoff again reset =
      if r.stop then ok over else on_status r backoff r.status again reset

  -- The outer loop from a backoff on, over the rounds there are.
  unfoldable pub run : ℕ → List Round → Run Trace
  unfolding one_round
  run backoff [] = ok (record { fed = nothing; slept = []; is_over = false })
  run backoff (r ∷ rs) =
      one_round r backoff (run (next_backoff backoff) rs) (run (next_backoff first_backoff) rs)
