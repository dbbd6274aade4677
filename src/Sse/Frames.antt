-- ===== src/Sse/Frames.antt =====
-- Malformed frames: the log line takes a slice of the data at byte 200.
use Prim.Native.Nat.{min}
use loraterm.Common.{
  ℕ, ◌+◌, ◌<◌, ◌≡◌, ◌⊎◌, inl, inr, Bool, true, false, ◌∷◌, ◌++◌, none, arith, ok, panicked,
}
use loraterm.Text.{Text, len, len_utf8}
use loraterm.Text.Laws.{split_at-inside, split_at-len, len-append}
use loraterm.Sse.{Json, other, log_malformed, parse_event}

module _ (json : Json) where
  open json use {from_str}

  -- With the debug level on, a frame whose data is not JSON and has a character across its byte 200
  -- panics, so the task that reads the stream ends.
  pub parse_event-panics :
      (event_name a b : Text) (c : ℕ)
      → from_str (a ++ c ∷ b) ≡ none
      → len a < 200
      → 200 < len a + len_utf8 c
      → parse_event json true event_name (a ++ c ∷ b) ≡ panicked
  unfolding parse_event log_malformed
  parse_event-panics event_name a b c malformed behind before =
      let cut : min (len (a ++ c ∷ b)) 200 ≡ 200 =
        unfold len in omega (arith, len-append a (c ∷ b)) in
      rw (malformed, parse_event, cut, split_at-inside a b c 200 behind before)

  -- Malformed data `a ++ b` is passed on as it is, with no panic, if the debug level is off or its
  -- first 200 bytes, or all of a shorter one, are whole characters: the part `a`.
  pub parse_event-malformed :
      (debug : Bool) (event_name a b : Text)
      → from_str (a ++ b) ≡ none
      → (debug ≡ false) ⊎ (min (len (a ++ b)) 200 ≡ len a)
      → parse_event json debug event_name (a ++ b) ≡ ok (other event_name (json.string (a ++ b)))
  unfolding parse_event log_malformed
  parse_event-malformed true event_name a b malformed (inl quiet) = absurd cc
  parse_event-malformed true event_name a b malformed (inr cut) =
      rw (malformed, parse_event, cut, split_at-len a b)
  parse_event-malformed false event_name a b malformed _ = rw (malformed, parse_event)
