-- ===== src/Prelude/Sort.antt =====
-- sort.Strings: the lexicographic order of the bytes. Any two correct sorts give the same list,
-- so an insertion sort stands for Go's.
use mathlib.Core.List.{Perm, Permᴰ}
use mathlib.Core.List.Perm
use mathlib.Core.Path.{◌≡◌, refl, ◌∙◌}
use mathlib.Core.Bool.{Bool, true, false, ◌&&◌, ◌||◌}
use mathlib.Core.List.{List, [], ◌∷◌}
use native.Mathlib.Omega.{arith}
use mathlib.Core.Logic.{∥∥₁_elim, inl, inr, ◌≢◌}
use zero_comm.Prelude.Tests.{ltb, eqb, if◌then◌else◌, Bool-cases}
use zero_comm.Prelude.Bytes.{Text}

pub text_le : Text → Text → Bool
text_le [] t = true
text_le (a ∷ s) [] = false
text_le (a ∷ s) (b ∷ t) = ltb a b || (eqb a b && text_le s t)

pub text_le_refl : (s : Text) → text_le s s ≡ true
unfolding text_le
text_le_refl [] = refl
text_le_refl (a ∷ s) = ground (arith, text_le_refl s)

pub text_le_total : (s t : Text) → text_le s t ≡ false → text_le t s ≡ true
unfolding text_le
text_le_total [] t h = cc
text_le_total (a ∷ s) [] h = refl
text_le_total (a ∷ s) (b ∷ t) h = ground (arith, text_le_total s t)

pub text_le_antisymm : (s t : Text) → text_le s t ≡ true → text_le t s ≡ true → s ≡ t
unfolding text_le
text_le_antisymm [] [] h k = refl
text_le_antisymm [] (b ∷ t) h k = cc
text_le_antisymm (a ∷ s) [] h k = cc
text_le_antisymm (a ∷ s) (b ∷ t) h k = ground (arith, text_le_antisymm s t)

pub text_le_trans : (s t u : Text) → text_le s t ≡ true → text_le t u ≡ true → text_le s u ≡ true
unfolding text_le
text_le_trans [] t u h k = refl
text_le_trans (a ∷ s) [] u h k = cc
text_le_trans (a ∷ s) (b ∷ t) [] h k = cc
text_le_trans (a ∷ s) (b ∷ t) (c ∷ u) h k = ground (arith, text_le_trans s t u)

insert_sorted : Text → List Text → List Text
insert_sorted x [] = x ∷ []
insert_sorted x (y ∷ ys) = if text_le x y then x ∷ y ∷ ys else y ∷ insert_sorted x ys

unfoldable pub sort : List Text → List Text
unfolding insert_sorted text_le
sort [] = []
sort (x ∷ xs) = insert_sorted x (sort xs)

-- Each text is at most the next.
abbrev pub IsSorted : List Text → Type 0
IsSorted [] = Unit
IsSorted (x ∷ []) = Unit
IsSorted (x ∷ y ∷ ys) = (text_le x y ≡ true) × IsSorted (y ∷ ys)

insert_sorted-IsSorted : (x : Text) (ys : List Text) → IsSorted ys → IsSorted (insert_sorted x ys)
unfolding insert_sorted
insert_sorted-IsSorted x [] h = tt
insert_sorted-IsSorted x (y ∷ []) h = ground (arith, text_le_total x y)
insert_sorted-IsSorted x (y ∷ z ∷ zs) h =
    ground (arith, text_le_total x y, insert_sorted-IsSorted x (z ∷ zs) h.1)

insert_sorted-perm : (x : Text) (ys : List Text) → Perm (insert_sorted x ys) (x ∷ ys)
unfolding insert_sorted
insert_sorted-perm x [] = Perm.rfl
insert_sorted-perm x (y ∷ ys) =
    let moved = Perm.trans (Perm.cons y (insert_sorted-perm x ys)) (Perm.swap x y ys) in
    elim (Bool-cases (text_le x y)) [
      | inl e ↦ rw (e, insert_sorted) Perm.rfl
      | inr e ↦ rw (e, insert_sorted) moved
    ]

insert_sorted_comm :
    (x y : Text) (zs : List Text)
    → insert_sorted x (insert_sorted y zs) ≡ insert_sorted y (insert_sorted x zs)
unfolding insert_sorted
insert_sorted_comm x y [] =
    ground (arith, text_le_total x y, text_le_total y x, text_le_antisymm x y)
insert_sorted_comm x y (z ∷ zs) = ground (
  arith,
  insert_sorted_comm x y zs,
  text_le_total x y,
  text_le_total y x,
  text_le_antisymm x y,
  text_le_trans x y z,
  text_le_trans y x z,
  text_le_total x z,
  text_le_total y z,
)

pub sort-IsSorted : (xs : List Text) → IsSorted (sort xs)
unfolding sort
sort-IsSorted [] = tt
sort-IsSorted (x ∷ xs) = insert_sorted-IsSorted x (sort xs) (sort-IsSorted xs)

pub sort-perm : (xs : List Text) → Perm (sort xs) xs
unfolding sort
sort-perm [] = Perm.nil
sort-perm (x ∷ xs) = Perm.trans (insert_sorted-perm x (sort xs)) (Perm.cons x (sort-perm xs))

sort_of_perm : {xs ys : List Text} → Permᴰ xs ys → sort xs ≡ sort ys
unfolding sort
sort_of_perm Permᴰ.nil = refl
sort_of_perm (Permᴰ.cons {l₁ = xs} e p) = cc (sort_of_perm p)
sort_of_perm (Permᴰ.swap {a = a} {b = b} {l = l} e f) = cc (insert_sorted_comm a b (sort l))
sort_of_perm (Permᴰ.trans p q) = sort_of_perm p ∙ sort_of_perm q

-- The sorted list does not depend on the order of the input.
pub sort-eq_of_perm : (xs ys : List Text) → Perm xs ys → sort xs ≡ sort ys
sort-eq_of_perm xs ys p = ∥∥₁_elim p (Texts-set (sort xs) (sort ys)) (λ d. sort_of_perm d)
  where
    Texts-set : IsSet (List Text)
    Texts-set = hlevel

insert_sorted-ne-nil : (x : Text) (ys : List Text) → insert_sorted x ys ≢ []
unfolding insert_sorted
insert_sorted-ne-nil x [] = ground arith
insert_sorted-ne-nil x (y ∷ ys) = ground arith

pub sort-ne-nil : (x : Text) (xs : List Text) → sort (x ∷ xs) ≢ []
unfolding sort
sort-ne-nil x xs = insert_sorted-ne-nil x (sort xs)
