-- ===== src/Peer/Output.antt =====
-- What becomes of the output of the shell: all of it is offered to the sender, in order, in pieces.
use mathlib.Core.List.{append_assoc, append-nil}
use loraterm.Common.{
  subst, ℕ, ◌≡◌, refl, sym, ap, ◌∙◌, inl, inr, Bool, true, false, List, [], ◌∷◌, ◌++◌, Option, none,
  some, Run, ok, ◌>>=◌, >>=-eq-ok, concat, arith, Bool-cases, Option-cases, subst,
}
use loraterm.Text.{Text, Bytes, chars}
use loraterm.Chunker.{new, push, maybe_flush, flush_force, chunks_from_bytes}
use loraterm.Chunker.Format.{ChunkerOpts}
use loraterm.Chunker.Flush.{push-IsPushed, maybe_flush-eq-ok, flush_force-eq-ok}
use loraterm.Config.{ValidatedPeer, ChunkingConfig, LimitsConfig}
use loraterm.Peer.{
  Session, Round, Step, on_output, on_line, on_silence, on_tick, on_stop, round, farewell, run,
  start, idle_secs, chunker_opts,
}

ok_inj {ℓ} : {A : Type ℓ} {a b : A} → Path (Run A) (ok a) (ok b) → a ≡ b
ok_inj e = cc

concat-snoc :
    (pieces : List Bytes) (piece : Bytes) → concat (pieces ++ piece ∷ []) ≡ concat pieces ++ piece
concat-snoc [] piece = append-nil piece
concat-snoc (p ∷ pieces) piece =
    ap (◌++◌ p) (concat-snoc pieces piece) ∙ sym (append_assoc p (concat pieces) piece)

module _ (strip : Bytes → Bytes) (opts : ChunkerOpts) where
  -- The chunks of pieces of output, one piece after the other.
  unfoldable pub pieces_sent : List Bytes → Run (List Text)
  pieces_sent [] = ok []
  pieces_sent (piece ∷ pieces) = do
    chunks ← chunks_from_bytes strip piece opts
    more ← pieces_sent pieces
    ok (chunks ++ more)

  pieces_sent-snoc :
      (pieces : List Bytes) (piece : Bytes) {out chunks : List Text}
      → pieces_sent pieces ≡ ok out
      → chunks_from_bytes strip piece opts ≡ ok chunks
      → pieces_sent (pieces ++ piece ∷ []) ≡ ok (out ++ chunks)
  unfolding pieces_sent
  pieces_sent-snoc [] piece {out} {chunks} e f =
      rw f (ap ok (append-nil chunks ∙ ap (λ o. o ++ chunks) (ok_inj e)))
  pieces_sent-snoc (p ∷ pieces) piece {out} {chunks} e f =
      let (first, made, e') = >>=-eq-ok (chunks_from_bytes strip p opts) _ e in
      let (more, rest, e'') = >>=-eq-ok (pieces_sent pieces) _ e' in
      rw (made, pieces_sent-snoc pieces piece rest f)
        (ap ok (sym (append_assoc first more chunks) ∙ ap (λ o. o ++ chunks) (ok_inj e'')))

  -- The pieces that were sent so far, with the bytes in the buffer, are what was read.
  pub record IsSent (s : Session) : Type 0 where
    pub pieces : List Bytes
    pub chunks : pieces_sent pieces ≡ ok s.offered
    pub all : s.heard ≡ concat pieces ++ s.chunker.buf
    pub same : s.chunker.opts ≡ opts

  -- The bytes `taken` leave the buffer as chunks, after `read` was read.
  IsSent-flush :
      (s s' : Session) (read taken : Bytes) (chunks : List Text)
      → IsSent s
      → s'.heard ≡ s.heard ++ read
      → s.chunker.buf ++ read ≡ taken ++ s'.chunker.buf
      → s'.chunker.opts ≡ s.chunker.opts
      → chunks_from_bytes strip taken opts ≡ ok chunks
      → s'.offered ≡ s.offered ++ chunks
      → IsSent s'
  IsSent-flush s s' read taken chunks i heard splits kept made offered = record {
    pieces = i.pieces ++ taken ∷ [];
    chunks = pieces_sent-snoc i.pieces taken i.chunks made ∙ ap ok (sym offered);
    all =
        heard
        ∙ ap (λ h. h ++ read) i.all
        ∙ append_assoc (concat i.pieces) s.chunker.buf read
        ∙ ap (◌++◌ (concat i.pieces)) splits
        ∙ sym (append_assoc (concat i.pieces) taken s'.chunker.buf)
        ∙ ap (λ h. h ++ s'.chunker.buf) (sym (concat-snoc i.pieces taken));
    same = kept ∙ i.same;
  }

  IsSent-keep :
      (s s' : Session) (read : Bytes)
      → IsSent s
      → s'.heard ≡ s.heard ++ read
      → s'.chunker.buf ≡ s.chunker.buf ++ read
      → s'.chunker.opts ≡ s.chunker.opts
      → s'.offered ≡ s.offered
      → IsSent s'
  IsSent-keep s s' read i heard buf kept offered = record {
    pieces = i.pieces;
    chunks = i.chunks ∙ ap ok (sym offered);
    all =
        heard
        ∙ ap (λ h. h ++ read) i.all
        ∙ append_assoc (concat i.pieces) s.chunker.buf read
        ∙ ap (◌++◌ (concat i.pieces)) (sym buf);
    same = kept ∙ i.same;
  }

  -- A session that ended: all that it read from the shell was sent, in pieces that follow one
  -- another, and the last chunk is the farewell.
  pub record IsComplete (s : Session) : Type 0 where
    pub pieces : List Bytes
    pub all : s.heard ≡ concat pieces
    pub chunks : List Text
    pub reason : Text
    pub made : pieces_sent pieces ≡ ok chunks
    pub said : s.offered ≡ chunks ++ (chars "session closed: " ++ reason) ∷ []

module _ (strip : Bytes → Bytes) (opts : ChunkerOpts) (idle_timeout : ℕ) where
  -- A state with the same chunker, bytes and chunks.
  IsSent-other :
      (s s' : Session)
      → IsSent strip opts s
      → s'.chunker ≡ s.chunker
      → s'.heard ≡ s.heard
      → s'.offered ≡ s.offered
      → IsSent strip opts s'
  IsSent-other s s' i chunker heard offered = record {
    pieces = i.pieces;
    chunks = i.chunks ∙ ap ok (sym offered);
    all = heard ∙ i.all ∙ ap (λ c. concat i.pieces ++ c.buf) (sym chunker);
    same = ap (λ c. c.opts) chunker ∙ i.same;
  }

  step_state : {a b : Step} → Path (Run Step) (ok a) (ok b) → a.0 ≡ b.0
  step_state e = ground arith

  on_output-IsSent :
      (r : Round) (s : Session) (o : Option (Option Bytes)) {s' : Session} {ending : Option Text}
      → IsSent strip opts s
      → on_output strip idle_timeout r s o ≡ ok (s', ending)
      → IsSent strip opts s'
  unfolding on_output
  on_output-IsSent r s none i e = subst (IsSent strip opts) (step_state e) i
  on_output-IsSent r s (some none) i e = subst (IsSent strip opts) (step_state e) i
  on_output-IsSent r s (some (some bytes)) i e =
      let ((c, chunks), pushed, e') = >>=-eq-ok (push strip s.chunker r.instant bytes) _ e in
      let p = push-IsPushed strip s.chunker r.instant bytes pushed in
      let s'' : Session = record s {
        chunker = c;
        last_activity = r.now;
        heard = s.heard ++ bytes;
        offered = s.offered ++ chunks;
      } in
      subst (IsSent strip opts) (step_state e') (elim p.flushed [
        | inl (nothing, silent) ↦
            IsSent-keep strip opts s s'' bytes i refl
              (sym (p.splits ∙ ap (λ t. t ++ c.buf) nothing)) p.kept
              (ap (◌++◌ s.offered) silent ∙ append-nil s.offered)
        | inr (lines, made) ↦
            IsSent-flush strip opts s s'' bytes p.taken chunks i refl p.splits p.kept
              (ap (chunks_from_bytes strip p.taken) (sym i.same) ∙ made) refl
      ])

  on_line-IsSent :
      (r : Round) (s : Session) (o : Option (Option Text)) {s' : Session} {ending : Option Text}
      → IsSent strip opts s
      → on_line strip idle_timeout r s o ≡ ok (s', ending)
      → IsSent strip opts s'
  unfolding on_line
  on_line-IsSent r s none i e = on_output-IsSent r s r.output i e
  on_line-IsSent r s (some none) i e = subst (IsSent strip opts) (step_state e) i
  on_line-IsSent r s (some (some line)) i e = elim (Bool-cases r.takes_input) [
    | inl takes ↦ IsSent-other s _ i (ground arith) (ground arith) (ground arith)
    | inr shut ↦ IsSent-other s _ i (ground arith) (ground arith) (ground arith)
  ]

  on_silence-IsSent :
      (r : Round) (s : Session) (b : Bool) {s' : Session} {ending : Option Text}
      → IsSent strip opts s
      → on_silence strip idle_timeout r s b ≡ ok (s', ending)
      → IsSent strip opts s'
  unfolding on_silence
  on_silence-IsSent r s false i e = on_line-IsSent r s r.line i e
  on_silence-IsSent r s true i e =
      let ((c, chunks), flushed, e') = >>=-eq-ok (maybe_flush strip s.chunker r.instant) _ e in
      let s'' : Session = record s { chunker = c; offered = s.offered ++ chunks } in
      subst (IsSent strip opts) (step_state e')
        (elim (maybe_flush-eq-ok strip s.chunker r.instant flushed) [
          | inl (same, silent) ↦
              IsSent-other s s'' i same refl (ap (◌++◌ s.offered) silent ∙ append-nil s.offered)
          | inr (empty, kept, made) ↦
              IsSent-flush strip opts s s'' [] s.chunker.buf chunks i (sym (append-nil s.heard))
                (ap (◌++◌ s.chunker.buf) (sym empty)) kept
                (ap (chunks_from_bytes strip s.chunker.buf) (sym i.same) ∙ made) refl
        ])

  on_tick-IsSent :
      (r : Round) (s : Session) (b : Bool) {s' : Session} {ending : Option Text}
      → IsSent strip opts s
      → on_tick strip idle_timeout r s b ≡ ok (s', ending)
      → IsSent strip opts s'
  unfolding on_tick
  on_tick-IsSent r s false i e = on_silence-IsSent r s r.silence i e
  on_tick-IsSent r s true i e = IsSent-other s _ i (ground arith) (ground arith) (ground arith)

  on_stop-IsSent :
      (r : Round) (s : Session) (o : Option (Option Text)) {s' : Session} {ending : Option Text}
      → IsSent strip opts s
      → on_stop strip idle_timeout r s o ≡ ok (s', ending)
      → IsSent strip opts s'
  unfolding on_stop
  on_stop-IsSent r s none i e = on_tick-IsSent r s r.tick i e
  on_stop-IsSent r s (some none) i e = subst (IsSent strip opts) (step_state e) i
  on_stop-IsSent r s (some (some reason)) i e = subst (IsSent strip opts) (step_state e) i

  round-IsSent :
      (r : Round) (s : Session) {s' : Session} {ending : Option Text}
      → IsSent strip opts s
      → round strip idle_timeout r s ≡ ok (s', ending)
      → IsSent strip opts s'
  unfolding round
  round-IsSent r s i e = on_stop-IsSent r s r.stop i e

  farewell-IsComplete :
      (s : Session) (reason : Text) {s' : Session}
      → IsSent strip opts s
      → farewell strip idle_timeout s reason ≡ ok s'
      → IsComplete strip opts s'
  unfolding farewell
  farewell-IsComplete s reason i e =
      let ((c, chunks), drained, e') = >>=-eq-ok (flush_force strip s.chunker) _ e in
      let (empty, kept, made) = flush_force-eq-ok strip s.chunker drained in
      let rest = s.chunker.buf in
      subst (IsComplete strip opts) (ok_inj e') (record {
        pieces = i.pieces ++ rest ∷ [];
        all = i.all ∙ sym (concat-snoc i.pieces rest);
        chunks = s.offered ++ chunks;
        reason = reason;
        made =
            pieces_sent-snoc strip opts i.pieces rest i.chunks
              (ap (chunks_from_bytes strip rest) (sym i.same) ∙ made);
        said = refl;
      })

  -- Where a run stands, by whether its loop has ended.
  abbrev Stands : Session × Bool → Type 0
  Stands (s, true) = IsComplete strip opts s
  Stands (s, false) = IsSent strip opts s

  run-Stands :
      (rs : List Round) (s : Session) {end : Session × Bool}
      → IsSent strip opts s
      → run strip idle_timeout rs s ≡ ok end
      → Stands end
  unfolding run
  run-Stands [] s i e = subst Stands (ok_inj e) i
  run-Stands (r ∷ rs) s i e =
      let ((s'', ending), stepped, e') = >>=-eq-ok (round strip idle_timeout r s) _ e in
      let i' = round-IsSent r s i stepped in
      elim (Option-cases ending) [
        | inl more ↦ run-Stands rs s'' i' (rw more at e')
        | inr (reason, over) ↦
            let (last, said, e'') =
              >>=-eq-ok (farewell strip idle_timeout s'' reason) (λ end. ok (end, true))
                (rw over at e') in
            subst Stands (ok_inj e'') (farewell-IsComplete s'' reason i' said)
      ]

-- A session whose loop ends, without a panic, has offered all the output that it read from the shell
-- to its sender, and nothing else: the chunks it offered are those of pieces of the output that follow one another and make
-- up all of it, then the farewell. The chunker's options are those of the peer and the configuration.
pub run-IsComplete :
    (strip : Bytes → Bytes) (peer : ValidatedPeer) (chunking : ChunkingConfig)
    (limits : LimitsConfig) (now : ℕ) (rs : List Round) {s : Session}
    → run strip (idle_secs peer limits) rs (start peer chunking limits now) ≡ ok (s, true)
    → IsComplete strip (chunker_opts peer chunking limits) s
unfolding start new pieces_sent
run-IsComplete strip peer chunking limits now rs e =
    run-Stands strip (chunker_opts peer chunking limits) (idle_secs peer limits) rs
      (start peer chunking limits now)
      (record { pieces = []; chunks = refl; all = refl; same = refl }) e
