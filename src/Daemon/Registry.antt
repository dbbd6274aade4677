-- ===== src/Daemon/Registry.antt =====
-- The registry of peers as a map, and predicates on all of its bindings.
use loraterm.Common.{◌≡◌, false, [], ◌∷◌, none, some, arith, if◌then◌else◌, All}
use loraterm.Text.{Text, eq_text}
use loraterm.Text.Equality.{eq_text_iff}
use loraterm.Daemon.{PeerHandle, Registry, find_handle, remove, insert}

pub find_handle-remove :
    (k j : Text) (r : Registry)
    → find_handle k (remove j r) ≡ (if eq_text j k then none else find_handle k r)
unfolding find_handle remove
find_handle-remove k j [] = ground arith
find_handle-remove k j ((i, h) ∷ r) =
    ground (arith, find_handle-remove k j r, eq_text_iff i j, eq_text_iff i k, eq_text_iff j k)

pub find_handle-insert :
    (k j : Text) (h : PeerHandle) (r : Registry)
    → find_handle k (insert j h r) ≡ (if eq_text j k then some h else find_handle k r)
unfolding find_handle insert
find_handle-insert k j h r = ground (arith, find_handle-remove k j r)

module _ {κ} (P : Text × PeerHandle → Type κ) where
  pub remove-All : (k : Text) (r : Registry) → All P r → All P (remove k r)
  unfolding remove
  remove-All k [] a = tt
  remove-All k ((j, h) ∷ r) a = ground (arith, remove-All k r a.1)

  pub insert-All :
      (k : Text) (h : PeerHandle) (r : Registry) → P (k, h) → All P r → All P (insert k h r)
  unfolding insert
  insert-All k h r p a = (p, remove-All k r a)

-- No binding of the key is left.
pub remove-ne : (k : Text) (r : Registry) → All (λ b. eq_text b.0 k ≡ false) (remove k r)
unfolding remove
remove-ne k [] = tt
remove-ne k ((j, h) ∷ r) = ground (arith, remove-ne k r)

pub find_handle-none :
    (k : Text) (r : Registry) → find_handle k r ≡ none → All (λ b. eq_text b.0 k ≡ false) r
unfolding find_handle
find_handle-none k [] e = tt
find_handle-none k ((j, h) ∷ r) e = ground (arith, find_handle-none k r)
