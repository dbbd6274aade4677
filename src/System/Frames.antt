-- ===== src/System/Frames.antt =====
-- From the frames of the stream to the shells: the task of the stream, the daemon and its sessions
-- together.
use mathlib.Core.List.{append_assoc}
use loraterm.Common.{
  ℕ, ◌≡◌, refl, sym, ap, subst, ◌∙◌, Bool, true, false, inl, inr, List, [], ◌∷◌, ◌++◌, Option, none,
  some, Run, ok, panicked, diverged, >>=-eq-ok, Bool-cases, Sublist, nothing, skip_all, keep_all,
  Sublist-append, Sublist-append_left, is_empty,
}
use loraterm.Text.{Text}
use loraterm.Sse.{SseEvent, Json, first_backoff, next_backoff}
use loraterm.Sse.Loop.{
  Frame, Next, notified, timed_out, ended, broken, received, Exit, returned, gave_up, waiting, Fed,
  event_of, on_frame, read_stream, Round, Trace, run, one_round, on_status, on_exit, pause,
  slept_on, is_success,
}
use loraterm.System.Origin.{message}

module _ (json : Json) (debug raw_log : Bool) (key : Text) where
  open json use {Value}

  -- The text that a frame brings from the peer with this key, if it does.
  abbrev pub frame_text : Frame → List Text
  frame_text f = elim (event_of json debug raw_log f) [
    | ok e ↦ message key e
    | panicked ↦ []
    | diverged ↦ []
  ]

  -- The texts that come from the peer in what a stream brings, and in all streams of a run.
  abbrev pub stream_texts : List Next → List Text
  stream_texts [] = []
  stream_texts (received f is_open ∷ ns) = frame_text f ++ stream_texts ns
  stream_texts (notified flag ∷ ns) = stream_texts ns
  stream_texts (timed_out ∷ ns) = stream_texts ns
  stream_texts (ended ∷ ns) = stream_texts ns
  stream_texts (broken ∷ ns) = stream_texts ns

  abbrev pub round_texts : List Round → List Text
  round_texts [] = []
  round_texts (r ∷ rs) = stream_texts r.stream ++ round_texts rs

  -- The texts from the peer in events.
  abbrev pub said : List (SseEvent Value) → List Text
  said [] = []
  said (e ∷ es) = message key e ++ said es

  pub said-append : (es fs : List (SseEvent Value)) → said (es ++ fs) ≡ said es ++ said fs
  said-append [] fs = refl
  said-append (e ∷ es) fs =
      ap (λ l. message key e ++ l) (said-append es fs)
      ∙ sym (append_assoc (message key e) (said es) (said fs))

  fed_of :
      {fed fed' : Fed Value} {exit exit' : Exit}
      → Path (Run (Fed Value × Exit)) (ok (fed, exit)) (ok (fed', exit'))
      → fed ≡ fed'
  fed_of e = ap (λ x. x.0) (ok_inj e)
    where
      ok_inj : {a b : Fed Value × Exit} → Path (Run (Fed Value × Exit)) (ok a) (ok b) → a ≡ b
      ok_inj e = cc e

  silent :
      (ts : List Text) {fed fed' : Fed Value} {exit exit' : Exit}
      → fed.sent ≡ []
      → Path (Run (Fed Value × Exit)) (ok (fed, exit)) (ok (fed', exit'))
      → Sublist (said fed'.sent) ts
  silent ts none_sent e =
      subst (λ es. Sublist (said es) ts) (sym none_sent ∙ ap (λ f. f.sent) (fed_of e)) (nothing ts)

  frame_text-ok :
      (f : Frame) {event : SseEvent Value}
      → event_of json debug raw_log f ≡ ok event
      → frame_text f ≡ message key event
  frame_text-ok f parsed = rw (frame_text, parsed) refl

  read_stream-said :
      (ns : List Next) {fed : Fed Value} {exit : Exit}
      → read_stream json debug raw_log ns ≡ ok (fed, exit)
      → Sublist (said fed.sent) (stream_texts ns)
  unfolding read_stream on_frame
  read_stream-said [] e = silent [] refl e
  read_stream-said (notified true ∷ ns) e = silent (stream_texts ns) refl e
  read_stream-said (notified false ∷ ns) e = read_stream-said ns e
  read_stream-said (timed_out ∷ ns) e = silent (stream_texts ns) refl e
  read_stream-said (ended ∷ ns) e = silent (stream_texts ns) refl e
  read_stream-said (broken ∷ ns) e = silent (stream_texts ns) refl e
  read_stream-said (received f true ∷ ns) e =
      let (event, parsed, e') = >>=-eq-ok (event_of json debug raw_log f) _ e in
      let (r, done, e'') = >>=-eq-ok (read_stream json debug raw_log ns) _ e' in
      let same = frame_text-ok f parsed in
      subst (λ g. Sublist (said g.sent) (frame_text f ++ stream_texts ns)) (fed_of e'')
        (subst (λ l. Sublist (message key event ++ said r.0.sent) (l ++ stream_texts ns)) (sym same)
          (keep_all (message key event) (read_stream-said ns done)))
  read_stream-said (received f false ∷ ns) e =
      let (event, parsed, e') = >>=-eq-ok (event_of json debug raw_log f) _ e in
      elim (Bool-cases (is_empty f.data_text)) [
        | inr full ↦ silent (frame_text f ++ stream_texts ns) refl (rw full at e')
        | inl empty ↦
            let (r, done, e'') = >>=-eq-ok (read_stream json debug raw_log ns) _ (rw empty at e') in
            subst (λ g. Sublist (said g.sent) (frame_text f ++ stream_texts ns)) (fed_of e'')
              (skip_all (frame_text f) (read_stream-said ns done))
      ]

  trace_of :
      {t t' : Trace json debug raw_log}
      → Path (Run (Trace json debug raw_log)) (ok t) (ok t')
      → t ≡ t'
  trace_of e = cc e

  pause-said :
      (fed : Fed Value) (backoff : ℕ) (r : Round) (rest : Run (Trace json debug raw_log))
      (xs ys : List Text) {t : Trace json debug raw_log}
      → Sublist (said fed.sent) xs
      → ((t' : Trace json debug raw_log) → rest ≡ ok t' → Sublist (said t'.fed.sent) ys)
      → pause json debug raw_log fed backoff r rest ≡ ok t
      → Sublist (said t.fed.sent) (xs ++ ys)
  unfolding pause
  pause-said fed backoff r rest xs ys now later e = elim (Bool-cases (slept_on r.wake)) [
    | inr stop ↦
        subst (λ t. Sublist (said t.fed.sent) (xs ++ ys)) (trace_of (rw stop at e))
          (Sublist-append_left ys now)
    | inl on ↦
        let (t', done, e') = >>=-eq-ok rest _ (rw on at e) in
        subst (λ t. Sublist (said t.fed.sent) (xs ++ ys)) (trace_of e')
          (subst (λ l. Sublist l (xs ++ ys)) (sym (said-append fed.sent t'.fed.sent))
            (Sublist-append (said t'.fed.sent) ys now (later t' done)))
  ]

  on_status-said :
      (r : Round) (backoff : ℕ) (status : Option ℕ) (again reset : Run (Trace json debug raw_log))
      (ys : List Text) {t : Trace json debug raw_log}
      → ((t' : Trace json debug raw_log) → again ≡ ok t' → Sublist (said t'.fed.sent) ys)
      → ((t' : Trace json debug raw_log) → reset ≡ ok t' → Sublist (said t'.fed.sent) ys)
      → on_status json debug raw_log r backoff status again reset ≡ ok t
      → Sublist (said t.fed.sent) (stream_texts r.stream ++ ys)
  unfolding on_status on_exit
  on_status-said r backoff none again reset ys h h' e =
      pause-said (record { sent = []; logged = [] }) backoff r again (stream_texts r.stream) ys
        (nothing (stream_texts r.stream)) h e
  on_status-said r backoff (some status) again reset ys h h' e =
      elim (Bool-cases (is_success status)) [
        | inr refused ↦
            pause-said (record { sent = []; logged = [] }) backoff r again (stream_texts r.stream)
              ys (nothing (stream_texts r.stream)) h (rw refused at e)
        | inl success ↦
            let ((fed, exit), done, e') =
              >>=-eq-ok (read_stream json debug raw_log r.stream) _ (rw success at e) in
            left_said fed exit (read_stream-said r.stream done) e'
      ]
    where
      left_said :
          (fed : Fed Value) (exit : Exit) {t : Trace json debug raw_log}
          → Sublist (said fed.sent) (stream_texts r.stream)
          → on_exit json debug raw_log r (fed, exit) reset ≡ ok t
          → Sublist (said t.fed.sent) (stream_texts r.stream ++ ys)
      left_said fed gave_up now e =
          pause-said fed first_backoff r reset (stream_texts r.stream) ys now h' e
      left_said fed returned now e =
          subst (λ t. Sublist (said t.fed.sent) (stream_texts r.stream ++ ys)) (trace_of e)
            (Sublist-append_left ys now)
      left_said fed waiting now e =
          subst (λ t. Sublist (said t.fed.sent) (stream_texts r.stream ++ ys)) (trace_of e)
            (Sublist-append_left ys now)

  pub run-said :
      (backoff : ℕ) (rs : List Round) {t : Trace json debug raw_log}
      → run json debug raw_log backoff rs ≡ ok t
      → Sublist (said t.fed.sent) (round_texts rs)
  unfolding run one_round
  run-said backoff [] e = subst (λ t. Sublist (said t.fed.sent) []) (trace_of e) (nothing [])
  run-said backoff (r ∷ rs) e = elim (Bool-cases r.stop) [
    | inl stop ↦
        subst (λ t. Sublist (said t.fed.sent) (round_texts (r ∷ rs))) (trace_of (rw stop at e))
          (nothing (round_texts (r ∷ rs)))
    | inr go ↦
        on_status-said r backoff r.status _ _ (round_texts rs)
          (λ t' done. run-said (next_backoff backoff) rs done)
          (λ t' done. run-said (next_backoff first_backoff) rs done) (rw go at e)
  ]
