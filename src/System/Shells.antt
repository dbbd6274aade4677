-- ===== src/System/Shells.antt =====
-- From the frames of the stream to the shells: the task of the stream, the daemon and its sessions.
use loraterm.Common.{
  ℕ, ◌≡◌, refl, sym, ap, subst, ◌∙◌, Bool, List, [], ◌∷◌, ◌++◌, some, ok, Sublist,
  Sublist-append_left, Sublist-trans, Sublist-refl,
}
use loraterm.Text.{Text, Bytes}
use loraterm.Config.{Whitelist}
use loraterm.Config.File.{Config}
use loraterm.Sse.{SseEvent, Json, first_backoff}
use loraterm.Sse.Loop.{Round, Trace, run}
use loraterm.System.{Slot, Move, stream, reloaded, stopped, turned, left_behind, steps, boot}
use loraterm.System.Fed.{lines_to, in_order, payloads}
use loraterm.System.Origin.{message, messages}
use loraterm.System.Typed.{steps-IsFed}
use loraterm.System.Frames.{said, said-append, round_texts, run-said}

-- The events that the daemon handles in a schedule.
abbrev pub arrivals : {Value : Type 0} → List (Move Value) → List (SseEvent Value)
arrivals [] = []
arrivals (stream now can_spawn e ∷ ms) = e ∷ arrivals ms
arrivals (reloaded now r ∷ ms) = arrivals ms
arrivals (stopped now ∷ ms) = arrivals ms
arrivals (turned n r ∷ ms) = arrivals ms
arrivals (left_behind n ∷ ms) = arrivals ms

pub cons_inj :
    {a b : Bytes} {as' bs : List Bytes}
    → Path (List Bytes) (a ∷ as') (b ∷ bs)
    → (a ≡ b) × (as' ≡ bs)
cons_inj e = (cc e, cc e)

-- The first payloads are those of the first lines.
pub payloads-split :
    (lines : List Text) (first more : List Bytes)
    → payloads lines ≡ first ++ more
    → (taken rest : List Text) × (lines ≡ taken ++ rest) × (first ≡ payloads taken)
payloads-split lines [] more e = ([], lines, refl, refl)
payloads-split [] (p ∷ first) more e = absurd cc
payloads-split (l ∷ lines) (p ∷ first) more e =
    let (same_head, same_tail) = cons_inj e in
    let (taken, rest, split, same) = payloads-split lines first more same_tail in
    (
      l ∷ taken,
      rest,
      ap (◌∷◌ l) split,
      ap (◌∷◌ p) same ∙ ap (λ q. q ∷ payloads taken) (sym same_head),
    )

module _ (json : Json) (debug raw_log : Bool) where
  open json use {Value}

  messages-said :
      (key : Text) (ms : List (Move Value))
      → messages key ms ≡ said json debug raw_log key (arrivals ms)
  messages-said key [] = refl
  messages-said key (stream now can_spawn e ∷ ms) =
      ap (λ l. message key e ++ l) (messages-said key ms)
  messages-said key (reloaded now r ∷ ms) = messages-said key ms
  messages-said key (stopped now ∷ ms) = messages-said key ms
  messages-said key (turned n r ∷ ms) = messages-said key ms
  messages-said key (left_behind n ∷ ms) = messages-said key ms

  -- From the frames of the stream to the shells. The task of the stream runs without a panic, and the
  -- daemon handles, in order, the first of the events that it sends, while reloads, the shutdown and
  -- the sessions come in between in any way: then what a session handed to the channel of its
  -- terminal are the payloads of texts that frames brought from the session's peer, in the order of
  -- the frames and each at most once.
  pub steps-run-typed :
      (strip : Bytes → Bytes) (config : Config) (w : Whitelist) (rs : List Round)
      (ms : List (Move Value)) (unread : List (SseEvent Value)) (n : ℕ)
      {t : Trace json debug raw_log} {s : Slot}
      → run json debug raw_log first_backoff rs ≡ ok t
      → t.fed.sent ≡ arrivals ms ++ unread
      → (steps strip config ms (boot w)).slots n ≡ some s
      → (taken : List Text) × (in_order s.session.typed ≡ payloads taken)
        × Sublist taken (round_texts json debug raw_log s.key rs)
  steps-run-typed strip config w rs ms unread n {t} {s} ran passed here =
      let (fed, among) = steps-IsFed strip config w ms n s here in
      let lines = lines_to n (steps strip config ms (boot w)).daemon.effects in
      let (taken, rest, split, same) =
        payloads-split lines (in_order s.session.typed) fed.more fed.split in
      let first : Sublist taken lines =
        subst (Sublist taken) (sym split) (Sublist-append_left rest (Sublist-refl taken)) in
      let handled = said json debug raw_log s.key (arrivals ms) in
      let sent : Sublist handled (said json debug raw_log s.key t.fed.sent) =
        subst (Sublist handled)
          (sym (
            ap (said json debug raw_log s.key) passed
            ∙ said-append json debug raw_log s.key (arrivals ms) unread))
          (Sublist-append_left (said json debug raw_log s.key unread) (Sublist-refl handled)) in
      let read : Sublist handled (round_texts json debug raw_log s.key rs) =
        Sublist-trans (run-said json debug raw_log s.key first_backoff rs ran) handled sent in
      let whole : Sublist lines (round_texts json debug raw_log s.key rs) =
        Sublist-trans read lines (subst (Sublist lines) (messages-said s.key ms) among) in
      (taken, same, Sublist-trans whole taken first)
