-- ===== src/Sse/Task.antt =====
-- src/api/sse.rs: `SseStream` with the opening of `SseStream::run`, its address and its raw log, in
-- front of the reconnecting loop. What is answered to a request, and whether a file can be opened to
-- append to it, are parameters.
use loraterm.Common.{ℕ, Bool, false, List, [], ◌++◌, Option, none, some, Run, map}
use loraterm.Text.{Text, chars}
use loraterm.Client.Http.{CompanionClient, Request, get}
use loraterm.Sse.{Json, first_backoff}
use loraterm.Sse.Loop.{Next, Round, Wake, Trace, run}

pub record SseStream : Type 0 where
  pub client : CompanionClient
  pub identity_id : Text
  pub raw_log : Option Text

unfoldable pub new : CompanionClient → Text → Option Text → SseStream
new client identity_id raw_log = record {
  client = client;
  identity_id = identity_id;
  raw_log = raw_log;
}

-- The request of a round; the client adds its header to it.
unfoldable pub stream_url : SseStream → Text
stream_url s =
    s.client.base_url
    ++ (chars "/api/v1/companion/identities/" ++ (s.identity_id ++ chars "/stream"))

unfoldable pub stream_request : SseStream → Request
unfolding stream_url
stream_request s = get s.client.authorization (stream_url s)

-- Whether there is a raw log to write to: a file that cannot be opened is done without.
pub opened : (Text → Bool) → Option Text → Bool
opened can_open (some path) = can_open path
opened can_open none = false

-- What a round meets: the status and the stream that are answered to a request, if it succeeds.
pub record Connecting : Type 0 where
  pub stop : Bool
  pub answer : Request → Option (ℕ × List Next)
  pub random : ℕ
  pub wake : Wake

abbrev pub status_of : Option (ℕ × List Next) → Option ℕ
status_of (some (status, stream)) = some status
status_of none = none

abbrev pub stream_of : Option (ℕ × List Next) → List Next
stream_of (some (status, stream)) = stream
stream_of none = []

pub connecting : SseStream → Connecting → Round
unfolding stream_request
connecting s c = record {
  stop = c.stop;
  status = status_of (c.answer (stream_request s));
  stream = stream_of (c.answer (stream_request s));
  random = c.random;
  wake = c.wake;
}

-- `SseStream::run`
pub run_task :
    (json : Json) (debug : Bool) (can_open : Text → Bool) (s : SseStream)
    → List Connecting
    → Run (Trace json debug (opened can_open s.raw_log))
unfolding connecting
run_task json debug can_open s cs =
    run json debug (opened can_open s.raw_log) first_backoff (map (connecting s) cs)
