-- ===== src/Prelude/Passing.antt =====
-- The elements of a list that pass a test: which of them `keep` and `first` find.
use mathlib.Core.Path.{◌≡◌, refl, sym, subst}
use mathlib.Core.Bool.{Bool, true, false}
use mathlib.Core.Option.{some}
use mathlib.Core.List.{List, [], ◌∷◌, Memᴰ}
use zero_comm.Prelude.Tests.{if◌then◌else◌}
use zero_comm.Prelude.Lists.{keep, first}

module _ {A : Type 0} (p : A → Bool) where
  -- A member of a list that passes the test
  abbrev pub Passes : A → List A → Type 0
  Passes x xs = Memᴰ x xs × (p x ≡ true)

  Passes-cons : {x : A} (y : A) {xs : List A} → Passes x xs → Passes x (y ∷ xs)
  Passes-cons y h = (Memᴰ.tail h.0, h.1)

  pub keep-Passes : (x : A) (xs : List A) → Memᴰ x (keep p xs) → Passes x xs
  keep-Passes x [] h = elim h [ ]
  keep-Passes x (y ∷ ys) h = by_test (p y) refl (keep-Passes x ys) h
    where
      split :
          p y ≡ true
          → (Memᴰ x (keep p ys) → Passes x ys)
          → Memᴰ x (y ∷ keep p ys)
          → Passes x (y ∷ ys)
      split e below (Memᴰ.head same) = (Memᴰ.head same, subst (λ z. p z ≡ true) (sym same) e)
      split e below (Memᴰ.tail h) = Passes-cons y (below h)

      by_test :
          (b : Bool)
          → p y ≡ b
          → (Memᴰ x (keep p ys) → Passes x ys)
          → Memᴰ x (if b then y ∷ keep p ys else keep p ys)
          → Passes x (y ∷ ys)
      by_test true e below h = split e below h
      by_test false e below h = Passes-cons y (below h)

  pub mem-keep : (x : A) (xs : List A) → Memᴰ x xs → p x ≡ true → Memᴰ x (keep p xs)
  mem-keep x [] h e = elim h [ ]
  mem-keep x (y ∷ ys) (Memᴰ.head same) e = rw (subst (λ z. p z ≡ true) same e) (Memᴰ.head same)
  mem-keep x (y ∷ ys) (Memᴰ.tail h) e = by_test (p y) (mem-keep x ys h e)
    where
      by_test : (b : Bool) → Memᴰ x (keep p ys) → Memᴰ x (if b then y ∷ keep p ys else keep p ys)
      by_test true below = Memᴰ.tail below
      by_test false below = below

  -- `first` finds an element if one passes, and it is one of the list.
  pub first-some : (x : A) (xs : List A) → Memᴰ x xs → p x ≡ true → (y : A) × (first p xs ≡ some y)
  first-some x [] h e = elim h [ ]
  first-some x (y ∷ ys) (Memᴰ.head same) e = (y, rw (subst (λ z. p z ≡ true) same e) refl)
  first-some x (y ∷ ys) (Memᴰ.tail h) e = by_test (p y) (first-some x ys h e)
    where
      by_test :
          (b : Bool)
          → (z : A) × (first p ys ≡ some z)
          → (z : A) × ((if b then some y else first p ys) ≡ some z)
      by_test true below = (y, refl)
      by_test false below = below

  pub Memᴰ-first : (x : A) (xs : List A) → first p xs ≡ some x → Memᴰ x xs
  Memᴰ-first x [] e = cc
  Memᴰ-first x (y ∷ ys) e = by_test (p y) (Memᴰ-first x ys) e
    where
      by_test :
          (b : Bool)
          → (first p ys ≡ some x → Memᴰ x ys)
          → (if b then some y else first p ys) ≡ some x
          → Memᴰ x (y ∷ ys)
      by_test true below e = Memᴰ.head cc
      by_test false below e = Memᴰ.tail (below e)
