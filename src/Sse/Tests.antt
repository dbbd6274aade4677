-- ===== src/Sse/Tests.antt =====
-- Runs of `parse_event` on concrete frames.
use loraterm.Common.{
  List, ◌≡◌, refl, inr, true, [], ◌∷◌, ◌++◌, some, none, Option, replicate, ok, panicked,
  if◌then◌else◌, arith,
}
use loraterm.Text.{starts_with, to_ascii_lowercase, Text, chars, eq_text, len}
use loraterm.Sse.{classify_inbound, classify, field, DmEvent, dm_received, Json, parse_event}
use loraterm.Sse.{
  Attempt, connect_failed, bad_status, streamed, sleeps, first_backoff, next_backoff,
}
use loraterm.Sse.Classify.{IsInbound}
use loraterm.Sse.Frames.{parse_event-panics}

-- The values of this JSON are an object, of an inbound message, and strings; `{}` is the text of the
-- object and no other text parses.
abbrev pub dm : DmEvent
dm = record {
  id = none;
  identity_id = none;
  peer_pubkey_hex = replicate 64 b'a';
  peer_name = none;
  text = some (chars "ls");
  direction = some (chars "in");
  payload_type = none;
  ts = none;
}

pub data Value : Type 0 where
  object : Value
  text : Text → Value

abbrev pub get : Text → Value → Option Value
get name object = if eq_text name (chars "direction") then some (text (chars "in")) else none
get name (text s) = none

abbrev pub as_str : Value → Option Text
as_str object = none
as_str (text s) = some s

abbrev pub from_value : Value → Option DmEvent
from_value object = some dm
from_value (text s) = none

abbrev pub json : Json
json = record {
  Value = Value;
  from_str = λ s. if eq_text s (chars "{}") then some object else none;
  get = get;
  as_str = as_str;
  string = text;
  from_value = from_value;
}

inbound : IsInbound json object dm
unfolding field eq_text to_ascii_lowercase
inbound = record { direction = refl; kind = inr refl; decodes = refl; text = refl; sender = refl }

parse-inbound : parse_event json true (chars "message") (chars "{}") ≡ ok (dm_received dm)
unfolding parse_event eq_text classify field to_ascii_lowercase starts_with classify_inbound
parse-inbound = refl

-- 199 letters, then a character of two bytes.
parse_event-panics_example :
    parse_event json true (chars "message") (replicate 199 b'a' ++ 0xe4 ∷ chars "!") ≡ panicked
unfolding eq_text len
parse_event-panics_example =
    parse_event-panics json (chars "message") (replicate 199 b'a') (chars "!") 0xe4 refl
      (omega arith) (omega arith)

abbrev attempts : List Attempt
attempts = connect_failed ∷ bad_status ∷ streamed ∷ connect_failed ∷ []

sleeps-attempts : sleeps first_backoff attempts ≡ 1 ∷ 2 ∷ 1 ∷ 2 ∷ []
unfolding sleeps next_backoff
sleeps-attempts = refl
