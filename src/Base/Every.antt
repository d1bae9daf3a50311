-- ===== src/Base/Every.antt =====
-- A property that every element of a list has.
use mathlib.Core.List.{List, [], ◌∷◌, ◌++◌}

abbrev pub Every : {A : Type 0} → (A → Type 0) → List A → Type 0
Every P [] = Unit
Every P (x ∷ xs) = P x × Every P xs

module _ {A : Type 0} (P : A → Type 0) where
  pub Every-append : (xs ys : List A) → Every P xs → Every P ys → Every P (xs ++ ys)
  Every-append [] ys h k = k
  Every-append (x ∷ xs) ys h k = (h.0, Every-append xs ys h.1 k)

  pub Every-at : (xs : List A) (x : A) (ys : List A) → Every P (xs ++ x ∷ ys) → P x
  Every-at [] x ys h = h.0
  Every-at (y ∷ xs) x ys h = Every-at xs x ys h.1

pub Every-weaken :
    {A : Type 0} (P Q : A → Type 0)
    → ((x : A) → P x → Q x)
    → (xs : List A) → Every P xs
    → Every Q xs
Every-weaken P Q k [] h = tt
Every-weaken P Q k (x ∷ xs) h = (k x h.0, Every-weaken P Q k xs h.1)

pub Every-with :
    {A : Type 0} (P Q R S : A → Type 0) (xs : List A)
    → ((x : A) → P x → Q x → R x → S x)
    → Every P xs
    → Every Q xs
    → Every R xs
    → Every S xs
Every-with P Q R S [] f p q r = tt
Every-with P Q R S (x ∷ xs) f p q r = (f x p.0 q.0 r.0, Every-with P Q R S xs f p.1 q.1 r.1)
