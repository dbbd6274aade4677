-- ===== src/Common/Sublists.antt =====
-- Lists that come of others by leaving elements out.
use mathlib.Core.Path.{subst}
use mathlib.Core.List.{List, [], ◌∷◌, ◌++◌, append-nil}

pub data Sublist {ℓ} {A : Type ℓ} : List A → List A → Type ℓ where
  nothing : (ts : List A) → Sublist [] ts
  skip : (t : A) {xs ts : List A} → Sublist xs ts → Sublist xs (t ∷ ts)
  keep : (t : A) {xs ts : List A} → Sublist xs ts → Sublist (t ∷ xs) (t ∷ ts)

module _ {ℓ} {A : Type ℓ} where
  pub skip_all : (ss : List A) {xs ts : List A} → Sublist xs ts → Sublist xs (ss ++ ts)
  skip_all [] h = h
  skip_all (s ∷ ss) h = skip s (skip_all ss h)

  pub keep_all : (ss : List A) {xs ts : List A} → Sublist xs ts → Sublist (ss ++ xs) (ss ++ ts)
  keep_all [] h = h
  keep_all (s ∷ ss) h = keep s (keep_all ss h)

  pub Sublist-append :
      {xs ss : List A} (ys ts : List A)
      → Sublist xs ss
      → Sublist ys ts
      → Sublist (xs ++ ys) (ss ++ ts)
  Sublist-append ys ts (nothing ss) h = skip_all ss h
  Sublist-append ys ts (skip s g) h = skip s (Sublist-append ys ts g h)
  Sublist-append ys ts (keep s g) h = keep s (Sublist-append ys ts g h)

  pub Sublist-append_left : {xs ss : List A} (ts : List A) → Sublist xs ss → Sublist xs (ss ++ ts)
  Sublist-append_left {xs = xs} {ss = ss} ts h =
      subst (λ l. Sublist l (ss ++ ts)) (append-nil xs) (Sublist-append [] ts h (nothing ts))

  pub Sublist-refl : (xs : List A) → Sublist xs xs
  Sublist-refl [] = nothing []
  Sublist-refl (x ∷ xs) = keep x (Sublist-refl xs)

  pub Sublist-trans :
      {ys zs : List A} → Sublist ys zs → (xs : List A) → Sublist xs ys → Sublist xs zs
  Sublist-trans (nothing ts) xs (nothing zs) = nothing ts
  Sublist-trans (skip t g) xs h = skip t (Sublist-trans g xs h)
  Sublist-trans (keep t g) xs (nothing ts) = nothing _
  Sublist-trans (keep t g) xs (skip _ h) = skip t (Sublist-trans g xs h)
  Sublist-trans (keep t g) (_ ∷ xs) (keep _ h) = keep t (Sublist-trans g xs h)
