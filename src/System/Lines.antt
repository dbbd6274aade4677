-- ===== src/System/Lines.antt =====
-- From the frames of the stream to what the threads of the terminals write. What the terminal and the
-- shell make of the bytes is not part of this.
use loraterm.Common.{
  ℕ, ◌≡◌, refl, sym, ap, subst, ◌∙◌, Bool, List, [], ◌∷◌, ◌++◌, some, ok, map, concat, All, Sublist,
  nothing, skip, keep, Sublist-append_left, Sublist-trans, Sublist-refl,
}
use loraterm.Text.{Text, Bytes, as_bytes}
use loraterm.Config.{Whitelist}
use loraterm.Config.File.{Config}
use loraterm.Sse.{SseEvent, Json, first_backoff}
use loraterm.Sse.Loop.{Round, Trace, run}
use loraterm.Pty.{Writing, writer}
use loraterm.Pty.Lines.{lines_of, IsPlain, Typing, writing, writer-lines}
use loraterm.System.{Slot, Move, steps, boot}
use loraterm.System.Fed.{in_order, payloads}
use loraterm.System.Frames.{round_texts}
use loraterm.System.Shells.{arrivals, payloads-split, cons_inj, steps-run-typed}

Sublist-All : (P : Text → Type 0) {xs ts : List Text} → Sublist xs ts → All P ts → All P xs
Sublist-All P (nothing ts) a = tt
Sublist-All P (skip t h) a = Sublist-All P h a.1
Sublist-All P (keep t h) a = (a.0, Sublist-All P h a.1)

-- The writes of payloads are those of the messages.
writings :
    (lines : List Text) (ws : List Writing)
    → map (λ w. w.bytes) ws ≡ payloads lines
    → (ts : List Typing) × (ws ≡ map writing ts) × (map (λ t. t.0) ts ≡ lines)
writings [] [] e = ([], refl, refl)
writings [] (w ∷ ws) e = absurd cc
writings (l ∷ lines) [] e = absurd cc
writings (l ∷ lines) (w ∷ ws) e =
    let (same_head, same_tail) = cons_inj e in
    let (ts, same, texts) = writings lines ws same_tail in
    (
      (l, w.write_all, w.flush) ∷ ts,
      ap (λ b. record { bytes = b; write_all = w.write_all; flush = w.flush } ∷ ws) same_head
          ∙ ap (◌∷◌ (writing (l, w.write_all, w.flush))) same,
      ap (◌∷◌ l) texts,
    )

map-append_lem : (f : Typing → Text) (ss ts : List Typing) → map f (ss ++ ts) ≡ map f ss ++ map f ts
map-append_lem f [] ts = refl
map-append_lem f (s ∷ ss) ts = ap (◌∷◌ (f s)) (map-append_lem f ss ts)

map-map_lem : (ts : List Typing) → map (λ t. as_bytes t.0) ts ≡ map as_bytes (map (λ t. t.0) ts)
map-map_lem [] = refl
map-map_lem (t ∷ ts) = ap (◌∷◌ (as_bytes t.0)) (map-map_lem ts)

All-map : (P : Text → Type 0) (ts : List Typing) → All P (map (λ t. t.0) ts) → All (λ t. P t.0) ts
All-map P [] a = tt
All-map P (t ∷ ts) a = (a.0, All-map P ts a.1)

module _ (json : Json) (debug raw_log : Bool) where
  open json use {Value}

  -- From the frames of the stream to the bytes that are written to a terminal. The task of the stream runs
  -- without a panic, the daemon handles the first of the events that it sends, reloads, the shutdown
  -- and the sessions come in between in any way, and all that frames bring from the session's peer
  -- are plain messages: then what the writer thread of the session's terminal writes, of the payloads
  -- that it gets to and can write, is, cut at its newlines, the bytes of texts that frames brought
  -- from that peer, in the order of the frames and each at most once.
  pub steps-run-written :
      (strip : Bytes → Bytes) (config : Config) (w : Whitelist) (rs : List Round)
      (ms : List (Move Value)) (unread : List (SseEvent Value)) (n : ℕ) (ws : List Writing)
      (queued : List Bytes) {t : Trace json debug raw_log} {s : Slot}
      → run json debug raw_log first_backoff rs ≡ ok t
      → t.fed.sent ≡ arrivals ms ++ unread
      → (steps strip config ms (boot w)).slots n ≡ some s
      → in_order s.session.typed ≡ map (λ x. x.bytes) ws ++ queued
      → All IsPlain (round_texts json debug raw_log s.key rs)
      → (taken : List Text) × (lines_of [] (concat (writer ws).0) ≡ map as_bytes taken)
        × Sublist taken (round_texts json debug raw_log s.key rs)
  steps-run-written strip config w rs ms unread n ws queued {t} {s} ran passed here got plain =
      let (typed, same, among) =
        steps-run-typed json debug raw_log strip config w rs ms unread n ran passed here in
      let (us, vs, split, firsts) =
        payloads-split typed (map (λ x. x.bytes) ws) queued (sym same ∙ got) in
      let us_among : Sublist us (round_texts json debug raw_log s.key rs) =
        Sublist-trans among us
          (subst (Sublist us) (sym split) (Sublist-append_left vs (Sublist-refl us))) in
      let (ts, written, texts) = writings us ws firsts in
      let plain_us : All IsPlain us = Sublist-All IsPlain us_among plain in
      let (done, left, parts, read, whole) =
        writer-lines ts (All-map IsPlain ts (subst (All IsPlain) (sym texts) plain_us)) in
      let taken = map (λ t. t.0) done in
      let us_eq : us ≡ taken ++ map (λ t. t.0) left =
        sym texts ∙ ap (map (λ t. t.0)) parts ∙ map-append_lem (λ t. t.0) done left in
      (
        taken,
        ap (λ x. lines_of [] (concat (writer x).0)) written ∙ read ∙ map-map_lem done,
        Sublist-trans us_among taken (
            subst (Sublist taken) (sym us_eq)
              (Sublist-append_left (map (λ t. t.0) left) (Sublist-refl taken))),
      )
