-- ===== src/Prelude/Dict.antt =====
-- A Go map with string keys, as an association list. Iteration is in the order of the list; a
-- statement about a loop over a map ranges over all lists, so over all orders.
use mathlib.Core.Path.{◌≡◌, refl, subst}
use mathlib.Core.Option.{Option, none, some}
use mathlib.Core.List.{List, [], ◌∷◌, map}
use native.Mathlib.Omega.{arith}
use zero_comm.Prelude.Tests.{if◌then◌else◌, Bool-cases}
use zero_comm.Prelude.Bytes.{Text, ◌==◌, eq_iff, eq_refl}
use zero_comm.Prelude.Lists.{All, All-map}
use mathlib.Core.Logic.{inl, inr}

abbrev pub Dict {ℓ} : Type ℓ → Type ℓ
Dict V = List (Text × V)

module _ {ℓ} {V : Type ℓ} where
  -- delete(m, k)
  unfoldable pub delete : Text → Dict V → Dict V
  delete key [] = []
  delete key ((name, val) ∷ rest) =
      if name == key then delete key rest else (name, val) ∷ delete key rest

  -- m[k]
  unfoldable pub lookup : Text → Dict V → Option V
  lookup key [] = none
  lookup key ((name, val) ∷ rest) = if name == key then some val else lookup key rest

  pub lookup-delete :
      (key other : Text) (m : Dict V)
      → lookup other (delete key m) ≡ (if key == other then none else lookup other m)
  unfolding delete lookup
  lookup-delete key other [] = ground arith
  lookup-delete key other ((name, val) ∷ rest) =
      ground
        (arith, lookup-delete key other rest, eq_iff name other, eq_iff name key, eq_iff key other)

  -- m[k] = v
  unfoldable pub insert : Text → V → Dict V → Dict V
  insert key new [] = (key, new) ∷ []
  insert key new ((name, val) ∷ rest) =
      if name == key then (name, new) ∷ rest else (name, val) ∷ insert key new rest

  pub lookup-insert :
      (key other : Text) (new : V) (m : Dict V)
      → lookup other (insert key new m) ≡ (if key == other then some new else lookup other m)
  unfolding insert lookup
  lookup-insert key other new [] = refl
  lookup-insert key other new ((name, val) ∷ rest) = ground (
    arith,
    lookup-insert key other new rest,
    eq_iff name other,
    eq_iff name key,
    eq_iff key other,
  )

  abbrev pub values : Dict V → List V
  values = map (λ e. e.1)

  abbrev pub keys : Dict V → List Text
  keys = map (λ e. e.0)

  -- every key stands once
  abbrev pub IsMap : Dict V → Type ℓ
  IsMap [] = Unit
  IsMap ((k, v) ∷ m) = (lookup k m ≡ none) × IsMap m

  pub insert-IsMap : (k : Text) (v : V) (m : Dict V) → IsMap m → IsMap (insert k v m)
  unfolding lookup insert
  insert-IsMap k v [] h = (refl, tt)
  insert-IsMap k v ((j, w) ∷ m) h =
      ground (arith, insert-IsMap k v m h.1, lookup-insert k j v m, eq_iff k j, eq_iff j k)

  pub delete-IsMap : (k : Text) (m : Dict V) → IsMap m → IsMap (delete k m)
  unfolding lookup delete
  delete-IsMap k [] h = tt
  delete-IsMap k ((j, w) ∷ m) h = ground (arith, delete-IsMap k m h.1, lookup-delete k j m)

module _ {ℓ} {V : Type ℓ} where
  -- In a map each entry is the one that its key finds.
  pub IsMap-lookup : (m : Dict V) → IsMap m → All (λ e. lookup e.0 m ≡ some e.1) m
  unfolding lookup
  IsMap-lookup [] h = tt
  IsMap-lookup ((k, v) ∷ m) h = (
    rw (eq_refl k) refl,
    All-map _ _ m (λ e look. ground (arith, eq_iff k e.0, h.0)) (IsMap-lookup m h.1),
  )

  pub All-lookup {κ} :
      (P : Text × V → Type κ) (m : Dict V) (k : Text) (v : V)
      → All P m
      → lookup k m ≡ some v
      → P (k, v)
  unfolding lookup
  All-lookup P [] k v h e = cc
  All-lookup P ((j, w) ∷ m) k v h e = elim (Bool-cases (j == k)) [
    | inl hit ↦ subst P (ground (arith, eq_iff j k)) h.0
    | inr miss ↦ All-lookup P m k v h.1 (ground arith)
  ]

  -- A property of each entry that a new entry has too.
  pub All-insert {κ} :
      (P : Text × V → Type κ) (k : Text) (v : V) (m : Dict V)
      → P (k, v)
      → All P m
      → All P (insert k v m)
  unfolding insert
  All-insert P k v [] p h = (p, tt)
  All-insert P k v ((j, w) ∷ m) p h = elim (Bool-cases (j == k)) [
    | inl e ↦ rw (e, insert) (rw ((eq_iff j k).0 e) (p, h.1))
    | inr e ↦ rw (e, insert) (h.0, All-insert P k v m p h.1)
  ]

  pub All-delete {κ} :
      (P : Text × V → Type κ) (k : Text) (m : Dict V) → All P m → All P (delete k m)
  unfolding delete
  All-delete P k [] h = tt
  All-delete P k ((j, w) ∷ m) h = elim (Bool-cases (j == k)) [
    | inl e ↦ rw (e, delete) (All-delete P k m h.1)
    | inr e ↦ rw (e, delete) (h.0, All-delete P k m h.1)
  ]

pub lookup-nil {ℓ} : {V : Type ℓ} (k : Text) → lookup {V = V} k [] ≡ none
unfolding lookup
lookup-nil k = refl

pub ruleset dict_laws = (lookup-nil, lookup-insert, lookup-delete)
