-- ===== src/Pty/Threads.antt =====
-- What the two threads of a terminal pass on.
use loraterm.Common.{◌≡◌, refl, Bool, true, false, List, [], ◌∷◌, map, not, All, is_empty}
use loraterm.Text.{Bytes}
use loraterm.Pty.{Read, got, failed, Reading, on_read, reader}

-- The items of a list before the first that stops, and whether one does.
pub data UpTo {A : Type 0} (stops : A → Bool) : List A → List A → Bool → Type 0 where
  ran_out : UpTo stops [] [] false
  stopped : (a : A) (rest : List A) → stops a ≡ true → UpTo stops (a ∷ rest) [] true
  passed :
      (a : A) {rest seen : List A} {over : Bool}
      → stops a ≡ false
      → UpTo stops rest seen over
      → UpTo stops (a ∷ rest) (a ∷ seen) over

-- The reads behind which the thread leaves its loop: the end, an error, or output for which there is
-- no receiver any more.
abbrev pub is_last : Read → Bool → Bool
is_last (got []) is_open = true
is_last (got (b ∷ bytes)) is_open = not is_open
is_last failed is_open = true

abbrev pub bytes_of : Read → Bytes
bytes_of (got bytes) = bytes
bytes_of failed = []

abbrev pub leaves : Reading → Bool
leaves r = is_last r.read r.is_open

-- What a reader did.
abbrev pub IsRead : List Reading → List Bytes × Bool → Type 0
IsRead rs (sent, over) =
    (seen : List Reading) × UpTo leaves rs seen over
    × (sent ≡ map (λ r. bytes_of r.read) seen)
    × All (λ bytes. is_empty bytes ≡ false) sent

on_read-IsRead :
    (r : Reading) (rs : List Reading) (read : Read) (is_open : Bool) (rest : List Bytes × Bool)
    → r.read ≡ read
    → r.is_open ≡ is_open
    → IsRead rs rest
    → IsRead (r ∷ rs) (on_read read is_open rest)
unfolding on_read
on_read-IsRead r rs (got []) is_open rest e o h = ([], stopped r rs (rw e refl), refl, tt)
on_read-IsRead r rs failed is_open rest e o h = ([], stopped r rs (rw e refl), refl, tt)
on_read-IsRead r rs (got (b ∷ bytes)) false rest e o h =
    ([], stopped r rs (rw (e, o) refl), refl, tt)
on_read-IsRead r rs (got (b ∷ bytes)) true (sent, over) e o (seen, up_to, same, full) =
    (r ∷ seen, passed r (rw (e, o) refl) up_to, rw (e, same), (refl, full))

-- The output of the shell reaches the session as it is read: the pieces, none of them empty, are
-- those of the reads before the first that is empty, fails or finds no receiver, in order; such a
-- read ends the thread, and nothing else does.
pub reader-IsRead : (rs : List Reading) → IsRead rs (reader rs)
unfolding reader
reader-IsRead [] = ([], ran_out, refl, tt)
reader-IsRead (r ∷ rs) =
    on_read-IsRead r rs r.read r.is_open (reader rs) refl refl (reader-IsRead rs)
