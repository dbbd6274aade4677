-- ===== src/Sse.antt =====
-- src/api/sse.rs: how a frame of the event stream is classified (`parse_event`), and the backoff of
-- the reconnecting loop. JSON (`serde_json` and the derived `DmEvent` decoder) is an interface.
pub mod Classify
pub mod Frames
pub mod Stream
pub mod Loop
pub mod Task
mod Tests
use Prim.Native.Nat.{min}
use loraterm.Common.{
  ℕ, ◌*◌, Bool, not, ◌&&◌, ◌||◌, List, [], ◌∷◌, Option, none, some, Run, ok, ◌>>=◌, if◌then◌else◌,
  is_empty,
}
use loraterm.Text.{Text, chars, len, split_at, to_ascii_lowercase, eq_text, starts_with}

pub record DmEvent : Type 0 where
  pub id : Option Text
  pub identity_id : Option Text
  pub peer_pubkey_hex : Text
  pub peer_name : Option Text
  pub text : Option Text
  pub direction : Option Text
  pub payload_type : Option Text
  pub ts : Option Text

pub data SseEvent (Value : Type 0) : Type 0 where
  dm_received sent_echo : DmEvent → SseEvent Value
  other : (kind : Text) (raw : Value) → SseEvent Value
  comment : Text → SseEvent Value

-- `serde_json`: values, parsing, `Value::get`, `Value::as_str`, `Value::String`, and
-- `from_value::<DmEvent>`.
pub record Json : Type 1 where
  pub Value : Type 0
  pub from_str : Text → Option Value
  pub get : Text → Value → Option Value
  pub as_str : Value → Option Text
  pub string : Text → Value
  pub from_value : Value → Option DmEvent

-- `Option::is_some`
abbrev pub is_some {ℓ} : {A : Type ℓ} → Option A → Bool
is_some (some a) = Bool.true
is_some none = Bool.false

module _ (json : Json) where
  open json use {Value, from_str, get, as_str, string, from_value}

  -- `value.get(name).and_then(|v| v.as_str()).unwrap_or("").to_ascii_lowercase()`
  unfoldable pub field : Text → Value → Text
  field name value = elim (get name value) [
    | some v ↦ elim (as_str v) [ some s ↦ to_ascii_lowercase s | none ↦ [] ]
    | none ↦ []
  ]

  -- The classes of a value that was parsed, from its type and direction.
  pub classify_echo : Text → Value → SseEvent Value
  classify_echo type_field value = elim (from_value value) [
    | some dm ↦ sent_echo dm
    | none ↦ other type_field value
  ]

  pub classify_other : Text → Text → Value → SseEvent Value
  classify_other event_name type_field value =
      other (if is_empty type_field then event_name else type_field) value

  unfoldable pub classify_inbound : Text → Text → Value → SseEvent Value
  unfolding classify_other
  classify_inbound event_name type_field value = elim (from_value value) [
    | some dm ↦
        if is_some dm.text && not (is_empty dm.peer_pubkey_hex)
        then dm_received dm
        else classify_other event_name type_field value
    | none ↦ classify_other event_name type_field value
  ]

  unfoldable pub classify : Text → Value → SseEvent Value
  classify event_name value =
      let type_field = field (chars "type") value in
      let direction = field (chars "direction") value in
      if eq_text direction (chars "out") || starts_with type_field (chars "sent_")
      then classify_echo type_field value
      else if (eq_text type_field (chars "dm") || is_empty type_field)
          && eq_text direction (chars "in")
      then classify_inbound event_name type_field value
      else classify_other event_name type_field value

  -- The log line for malformed JSON slices `&data[..data.len().min(200)]`, if the debug level is on.
  pub log_malformed : Bool → Text → Run (Unit {0})
  log_malformed debug data_text =
      if debug then (split_at data_text (min (len data_text) 200) >>= λ _. ok tt) else ok tt

  unfoldable pub parse_event : Bool → Text → Text → Run (SseEvent Value)
  parse_event debug event_name data_text = elim (from_str data_text) [
    | some value ↦ ok (classify event_name value)
    | none ↦ do _ ← log_malformed debug data_text; ok (other event_name (string data_text))
  ]

-- Seconds.
abbrev pub first_backoff : ℕ
first_backoff = 1

abbrev pub backoff_cap : ℕ
backoff_cap = 60

-- `(backoff * 2).min(backoff_cap)`
pub next_backoff : ℕ → ℕ
next_backoff backoff = min (backoff * 2) backoff_cap

-- How one round of the loop of `run` goes, up to its sleep: the request fails, the answer is not a
-- success, or a stream of events was read until it ended.
pub data Attempt : Type 0 where
  connect_failed bad_status streamed : Attempt

-- The sleeps of the loop, one for a round, from a backoff on; a success resets the backoff.
pub sleeps : ℕ → List Attempt → List ℕ
sleeps backoff [] = []
sleeps backoff (connect_failed ∷ more) = backoff ∷ sleeps (next_backoff backoff) more
sleeps backoff (bad_status ∷ more) = backoff ∷ sleeps (next_backoff backoff) more
sleeps backoff (streamed ∷ more) = first_backoff ∷ sleeps (next_backoff first_backoff) more
