-- ===== src/Chunker/Flush.antt =====
-- The buffer of the chunker: what each operation takes off it, and when it wants to be woken.
use loraterm.Common.{
  ◌-◌, ltb, ℕ, suc, ◌+◌, ◌≤◌, ◌≡◌, ◌≢◌, ◌↔◌, ◌⊎◌, refl, sym, ap, ◌∙◌, inl, inr, true, false, List,
  [], ◌∷◌, ◌++◌, Option, none, some, arith, ok, if◌then◌else◌, ◌>>=◌, >>=-eq-ok, Bool-cases,
  Option-cases, is_empty, any, take, drop, take-append-drop, All,
}
use loraterm.Text.{Text, Bytes}
use loraterm.Chunker.Format.{ChunkerOpts}
use loraterm.Chunker.{
  leb, drain_all, flush_force, Chunker, new, is_lf, last_newline, next_deadline, chunks_from_bytes,
  flush_committed, push, maybe_flush,
}

abbrev pub NoNewline : Bytes → Type 0
NoNewline = All (λ b. is_lf b ≡ false)

-- No newline waits in the buffer, and a buffer with bytes in it has the time of a push.
pub record IsReady (c : Chunker) : Type 0 where
  pub no_newline : NoNewline c.buf
  pub timed : (c.buf ≡ []) ⊎ ((t : ℕ) × (c.last_push ≡ some t))

pub new-IsReady : (opts : ChunkerOpts) → IsReady (new opts)
unfolding new
new-IsReady opts = record { no_newline = tt; timed = inl refl }

last_newline-none : (bs : Bytes) → last_newline bs ≡ none → NoNewline bs
unfolding last_newline
last_newline-none [] e = tt
last_newline-none (b ∷ bs) e = ground (arith, last_newline-none bs)

-- The last newline ends what is taken, and none is behind it.
last_newline-some :
    (bs : Bytes) {i : ℕ}
    → last_newline bs ≡ some i
    → ((body : Bytes) × (take (suc i) bs ≡ body ++ b'\n' ∷ [])) × NoNewline (drop (suc i) bs)
unfolding last_newline
last_newline-some [] e = absurd cc
last_newline-some (b ∷ bs) {i} e = elim (Option-cases (last_newline bs)) [
  | inr (j, found) ↦
      let index : suc j ≡ i = cc (rw found at e) in
      let ((body, ends), behind) = last_newline-some bs found in
      rw (← index) ((b ∷ body, ap (◌∷◌ b) ends), behind)
  | inl missing ↦
      let hit : (0 ≡ i) × (b ≡ b'\n') = ground (arith, rw missing at e) in
      rw (← hit.0) (([], rw (hit.1)), last_newline-none bs missing)
]

any-none : (bs : Bytes) → any is_lf bs ≡ false → NoNewline bs
any-none [] e = tt
any-none (b ∷ bs) e = ground (arith, any-none bs)

any-last_newline : (bs : Bytes) → any is_lf bs ≡ true → last_newline bs ≢ none
unfolding last_newline
any-last_newline [] e m = cc
any-last_newline (b ∷ bs) e m = ground (arith, any-last_newline bs)

pushed-IsReady : (c : Chunker) (now : ℕ) → c.last_push ≡ some now → NoNewline c.buf → IsReady c
pushed-IsReady c now e h = record { no_newline = h; timed = inr (now, e) }

is_empty-ne : (bs : Bytes) → bs ≢ [] → is_empty bs ≡ false
is_empty-ne [] h = absurd (h refl)
is_empty-ne (b ∷ bs) h = refl

-- The chunker behind a drain, which asks for no wake-up.
pub drained : Chunker → Chunker
drained c = record c { buf = []; last_push = none }

module _ (strip : Bytes → Bytes) where
  -- What a push does, when it returns: the bytes behind the last newline wait, and the others come
  -- out as chunks. The pushed bytes are all accounted for.
  pub record IsPushed (c : Chunker) (now : ℕ) (bytes : Bytes) (c' : Chunker) (out : List Text)
      : Type 0 where
    pub taken : Bytes
    pub splits : c.buf ++ bytes ≡ taken ++ c'.buf
    pub flushed :
        ((taken ≡ []) × (out ≡ []))
        ⊎ (((body : Bytes) × (taken ≡ body ++ b'\n' ∷ []))
            × (chunks_from_bytes strip taken c.opts ≡ ok out))
    pub ready : IsReady c'
    pub stamped : c'.last_push ≡ some now
    pub kept : c'.opts ≡ c.opts

  -- A push that does not panic flushes the buffered and pushed bytes up to the last newline, as
  -- chunks, and keeps the rest, which has no newline; it takes the time of the push, and the
  -- buffer is ready for the next operation.
  pub push-IsPushed :
      (c : Chunker) (now : ℕ) (bytes : Bytes) {c' : Chunker} {out : List Text}
      → push strip c now bytes ≡ ok (c', out)
      → IsPushed c now bytes c' out
  unfolding push
  push-IsPushed c now bytes {c'} {out} e = elim (Bool-cases (any is_lf (c.buf ++ bytes))) [
    | inr quiet ↦
        let e' = rw quiet at e in
        let buf_eq : c'.buf ≡ c.buf ++ bytes = ground arith in
        record {
          taken = [];
          splits = sym buf_eq;
          flushed = inl (refl, ground arith);
          ready = pushed-IsReady c' now (ground arith) (rw buf_eq (any-none _ quiet));
          stamped = ground arith;
          kept = ground arith;
        }
    | inl line ↦ elim (Option-cases (last_newline (c.buf ++ bytes))) [
      | inl missing ↦ absurd (any-last_newline (c.buf ++ bytes) line missing)
      | inr (i, found) ↦
          let all_bytes = c.buf ++ bytes in
          let (ends, behind) = last_newline-some all_bytes found in
          let (chunks, flushed, e') =
            >>=-eq-ok (chunks_from_bytes strip (take (suc i) all_bytes) c.opts) _
              (rw (line, flush_committed, found) at e) in
          let buf_eq : c'.buf ≡ drop (suc i) all_bytes = ground arith in
          record {
            taken = take (suc i) all_bytes;
            splits = rw buf_eq (sym (take-append-drop (suc i) all_bytes));
            flushed = inr (ends, flushed ∙ ap ok (ground arith));
            ready = pushed-IsReady c' now (ground arith) (rw buf_eq behind);
            stamped = ground arith;
            kept = ground arith;
          }
    ]
  ]

  -- The silence deadline is honoured and cannot spin. For a buffer with bytes in it that was last
  -- pushed to at `t`, not after `now`: the deadline is `t` plus the silence; before it
  -- `maybe_flush` changes nothing, and from it on `maybe_flush` turns the whole buffer into chunks
  -- and leaves an empty, ready buffer with no deadline. With no bytes in the buffer there is no
  -- deadline, whatever the time of the last push.
  pub maybe_flush_deadline :
      (c : Chunker) (now t : ℕ)
      → c.buf ≢ []
      → c.last_push ≡ some t
      → t ≤ now
      → (next_deadline c ≡ some (t + c.opts.flush_silence))
        × (maybe_flush strip c now ≡ (
            if ltb now (t + c.opts.flush_silence)
            then ok (c, [])
            else (chunks_from_bytes strip c.buf c.opts >>= λ chunks. ok (drained c, chunks))))
        × (next_deadline (drained c) ≡ none)
        × IsReady (drained c)
        × ((last : Option ℕ) → next_deadline (record c { buf = []; last_push = last }) ≡ none)
  unfolding next_deadline maybe_flush drained
  maybe_flush_deadline c now t waiting pushed past =
      let bytes : is_empty c.buf ≡ false = is_empty-ne c.buf waiting in
      (
        rw (bytes, pushed),
        ground (arith, bytes),
        refl,
        record { no_newline = tt; timed = inl refl },
        λ last. refl,
      )

empty_or_set :
    (buf : Bytes) (deadline : ℕ)
    → ((if is_empty buf then none else some deadline) ≡ none) ↔ (buf ≡ [])
empty_or_set [] deadline = ((λ _. refl), (λ _. refl))
empty_or_set (b ∷ bs) deadline = ((λ e. absurd cc), (λ e. absurd cc))

-- A ready chunker asks to be woken exactly when bytes are waiting.
pub next_deadline-none : (c : Chunker) → IsReady c → (next_deadline c ≡ none) ↔ (c.buf ≡ [])
unfolding next_deadline
next_deadline-none c r = elim r.timed [
  | inl empty ↦ rw empty ((λ _. refl), (λ _. refl))
  | inr (t, pushed) ↦ rw pushed (empty_or_set c.buf (t + c.opts.flush_silence))
]

module _ (strip : Bytes → Bytes) where
  -- Draining that returns has turned the whole buffer into chunks.
  pub flush_force-eq-ok :
      (c : Chunker) {c' : Chunker} {out : List Text}
      → flush_force strip c ≡ ok (c', out)
      → (c'.buf ≡ []) × (c'.opts ≡ c.opts) × (chunks_from_bytes strip c.buf c.opts ≡ ok out)
  unfolding flush_force drain_all
  flush_force-eq-ok c {c'} {out} e =
      let (chunks, made, e') = >>=-eq-ok (chunks_from_bytes strip c.buf c.opts) _ e in
      (ground arith, ground arith, made ∙ ap ok (ground arith))

  maybe_flush-due :
      (c : Chunker) (now t : ℕ)
      → is_empty c.buf ≡ false
      → c.last_push ≡ some t
      → leb c.opts.flush_silence (now - t) ≡ true
      → maybe_flush strip c now ≡ flush_force strip c
  unfolding maybe_flush flush_force
  maybe_flush-due c now t bytes pushed due = simp (bytes, pushed, due)

  -- A flush that returns changed nothing or drained the buffer.
  pub maybe_flush-eq-ok :
      (c : Chunker) (now : ℕ) {c' : Chunker} {out : List Text}
      → maybe_flush strip c now ≡ ok (c', out)
      → ((c' ≡ c) × (out ≡ []))
        ⊎ ((c'.buf ≡ []) × (c'.opts ≡ c.opts) × (chunks_from_bytes strip c.buf c.opts ≡ ok out))
  unfolding maybe_flush flush_force
  maybe_flush-eq-ok c now {c'} {out} e = elim (Bool-cases (is_empty c.buf)) [
    | inl empty ↦ inl (ground (arith, empty))
    | inr bytes ↦ elim (Option-cases c.last_push) [
      | inl never ↦ inl (ground (arith, bytes, never))
      | inr (t, pushed) ↦ elim (Bool-cases (leb c.opts.flush_silence (now - t))) [
        | inr early ↦ inl (ground (arith, bytes, pushed, early))
        | inl due ↦
            inr (flush_force-eq-ok c {c' = c'} (sym (maybe_flush-due c now t bytes pushed due) ∙ e))
      ]
    ]
  ]
