-- ===== src/Sse/Loop/Read.antt =====
-- What a stream that is read passes on.
use loraterm.Common.{
  ◌≡◌, refl, ap, subst, inl, inr, Bool, true, false, List, [], ◌∷◌, ◌++◌, Run, ok, >>=-eq-ok,
  Bool-cases, is_empty,
}
use loraterm.Sse.{SseEvent, Json}
use loraterm.Sse.Loop.{
  Frame, Next, notified, timed_out, ended, broken, received, Exit, returned, gave_up, waiting, Fed,
  event_of, on_frame, read_stream,
}

ok_inj {ℓ} : {A : Type ℓ} {a b : A} → Path (Run A) (ok a) (ok b) → a ≡ b
ok_inj e = cc

-- How a stream is left at what comes next.
abbrev pub Leaves : List Next → Exit → Type 0
Leaves [] exit = exit ≡ waiting
Leaves (notified true ∷ ns) exit = exit ≡ returned
Leaves (notified false ∷ ns) exit = ⊥
Leaves (received f true ∷ ns) exit = ⊥
Leaves (received f false ∷ ns) exit = (is_empty f.data_text ≡ false) × (exit ≡ returned)
Leaves (timed_out ∷ ns) exit = exit ≡ gave_up
Leaves (ended ∷ ns) exit = exit ≡ gave_up
Leaves (broken ∷ ns) exit = exit ≡ gave_up

module _ (json : Json) (debug raw_log : Bool) where
  open json use {Value}

  -- The events for what a stream brought, in order: one for each frame while there is a receiver.
  -- Without one only a frame with no data, whose event is a comment, is passed over.
  abbrev pub Fates : List Next → List (SseEvent Value) → Type 0
  Fates [] [] = Unit
  Fates [] (e ∷ es) = ⊥
  Fates (notified true ∷ ns) es = ⊥
  Fates (notified false ∷ ns) es = Fates ns es
  Fates (received f true ∷ ns) [] = ⊥
  Fates (received f true ∷ ns) (e ∷ es) = (event_of json debug raw_log f ≡ ok e) × Fates ns es
  Fates (received f false ∷ ns) es = (is_empty f.data_text ≡ true) × Fates ns es
  Fates (timed_out ∷ ns) es = ⊥
  Fates (ended ∷ ns) es = ⊥
  Fates (broken ∷ ns) es = ⊥

  pub record IsRead (ns : List Next) (events : List (SseEvent Value)) (exit : Exit) : Type 0 where
    pub before : List Next
    pub rest : List Next
    pub splits : ns ≡ before ++ rest
    pub fates : Fates before events
    pub leaves : Leaves rest exit

  IsRead-at : (ns : List Next) (exit : Exit) → Leaves ns exit → IsRead ns [] exit
  IsRead-at ns exit l = record { before = []; rest = ns; splits = refl; fates = tt; leaves = l }

  IsRead-skip :
      {ns : List Next} {events : List (SseEvent Value)} {exit : Exit}
      → IsRead ns events exit
      → IsRead (notified false ∷ ns) events exit
  IsRead-skip i = record {
    before = notified false ∷ i.before;
    rest = i.rest;
    splits = ap (◌∷◌ (notified false)) i.splits;
    fates = i.fates;
    leaves = i.leaves;
  }

  abbrev End : Type 0
  End = Fed Value × Exit

  abbrev IsReadEnd : List Next → End → Type 0
  IsReadEnd ns (fed, exit) = IsRead ns fed.sent exit

  on_frame-IsRead :
      (f : Frame) (is_open : Bool) (ns : List Next) (rest : Run End) {end : End}
      → ((e : End) → rest ≡ ok e → IsReadEnd ns e)
      → on_frame json debug raw_log f is_open rest ≡ ok end
      → IsReadEnd (received f is_open ∷ ns) end
  unfolding on_frame
  on_frame-IsRead f true ns rest ih e =
      let (event, made, e') = >>=-eq-ok (event_of json debug raw_log f) _ e in
      let (r, read, e'') = >>=-eq-ok rest _ e' in
      let i = ih r read in
      subst (IsReadEnd (received f true ∷ ns)) (ok_inj e'') (record {
        before = received f true ∷ i.before;
        rest = i.rest;
        splits = ap (◌∷◌ (received f true)) i.splits;
        fates = (made, i.fates);
        leaves = i.leaves;
      })
  on_frame-IsRead f false ns rest ih e =
      let (event, made, e') = >>=-eq-ok (event_of json debug raw_log f) _ e in
      elim (Bool-cases (is_empty f.data_text)) [
        | inl empty ↦
            let (r, read, e'') = >>=-eq-ok rest _ (rw empty at e') in
            let i = ih r read in
            subst (IsReadEnd (received f false ∷ ns)) (ok_inj e'') (record {
              before = received f false ∷ i.before;
              rest = i.rest;
              splits = ap (◌∷◌ (received f false)) i.splits;
              fates = (empty, i.fates);
              leaves = i.leaves;
            })
        | inr filled ↦
            subst (IsReadEnd (received f false ∷ ns)) (ok_inj (rw filled at e'))
              (IsRead-at (received f false ∷ ns) returned (filled, refl))
      ]

  read_stream-IsReadEnd :
      (ns : List Next) (end : End) → read_stream json debug raw_log ns ≡ ok end → IsReadEnd ns end
  unfolding read_stream
  read_stream-IsReadEnd [] end e = subst (IsReadEnd []) (ok_inj e) (IsRead-at [] waiting refl)
  read_stream-IsReadEnd (notified true ∷ ns) end e =
      subst (IsReadEnd (notified true ∷ ns)) (ok_inj e)
        (IsRead-at (notified true ∷ ns) returned refl)
  read_stream-IsReadEnd (notified false ∷ ns) (fed, exit) e =
      IsRead-skip (read_stream-IsReadEnd ns (fed, exit) e)
  read_stream-IsReadEnd (timed_out ∷ ns) end e =
      subst (IsReadEnd (timed_out ∷ ns)) (ok_inj e) (IsRead-at (timed_out ∷ ns) gave_up refl)
  read_stream-IsReadEnd (ended ∷ ns) end e =
      subst (IsReadEnd (ended ∷ ns)) (ok_inj e) (IsRead-at (ended ∷ ns) gave_up refl)
  read_stream-IsReadEnd (broken ∷ ns) end e =
      subst (IsReadEnd (broken ∷ ns)) (ok_inj e) (IsRead-at (broken ∷ ns) gave_up refl)
  read_stream-IsReadEnd (received f is_open ∷ ns) end e =
      on_frame-IsRead f is_open ns (read_stream json debug raw_log ns) (read_stream-IsReadEnd ns) e

  -- A stream that is read without a panic is read up to the first thing that leaves it: the
  -- watchdog, its end or a broken frame gives it up, and a shutdown, or an event for which there is
  -- no receiver any more, ends the task. For each frame before that one event was sent, in order,
  -- and nothing else; only comments may be lost, when there is no receiver.
  pub read_stream-IsRead :
      (ns : List Next) {fed : Fed Value} {exit : Exit}
      → read_stream json debug raw_log ns ≡ ok (fed, exit)
      → IsRead ns fed.sent exit
  read_stream-IsRead ns {fed} {exit} e = read_stream-IsReadEnd ns (fed, exit) e
