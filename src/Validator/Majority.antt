-- ===== src/Validator/Majority.antt =====
-- The buckets and the minimum of `Verify` of pubsub/validator/init.go.
use mathlib.Core.List.{append-nil, append_assoc}
use zero_comm.Prelude.{
  ℕ, Text, List, [], ◌∷◌, ◌++◌, ◌≡◌, ◌≢◌, ◌≤◌, ◌<◌, ◌⊎◌, inl, inr, refl, sym, ap, subst, arith, All,
  All-map, All-both, length, true, ltb, ◌==◌, eq_iff, eq_refl, if◌then◌else◌, some, get_or,
  Bool-cases, Option-cases,
}
use zero_comm.Prelude.Dict.{
  Dict, lookup, insert, lookup-insert, IsMap, insert-IsMap, IsMap-lookup, All-insert,
}
use zero_comm.Validator.{Buckets, invert, least}

-- The members that reported a checksum, in the order in which they were visited.
abbrev pub reporters : Text → Dict Text → List Text
reporters v [] = []
reporters v ((membr, val) ∷ s) = if val == v then membr ∷ reporters v s else reporters v s

-- The members of a bucket, none if the map has no bucket of that checksum.
abbrev bucket : Text → Buckets → List Text
bucket v mems = get_or (lookup v mems) []

bucket-invert :
    (v : Text) (mems : Buckets) (s : Dict Text)
    → bucket v (invert mems s) ≡ bucket v mems ++ reporters v s
unfolding invert
bucket-invert v mems [] = sym (append-nil _)
bucket-invert v mems ((membr, val) ∷ s) = ground (
  arith,
  bucket-invert v (insert val (bucket val mems ++ membr ∷ []) mems) s,
  lookup-insert val v (bucket val mems ++ membr ∷ []) mems,
  eq_iff val v,
  append_assoc (bucket v mems) (membr ∷ []) (reporters v s),
)

abbrev IsFilled : Text × List Text → Type 0
IsFilled e = e.1 ≢ []

append-ne-nil : (xs : List Text) (x : Text) → xs ++ x ∷ [] ≢ []
append-ne-nil [] x = ground arith
append-ne-nil (y ∷ xs) x = ground arith

invert-IsFilled :
    (mems : Buckets) (s : Dict Text) → All IsFilled mems → All IsFilled (invert mems s)
unfolding invert
invert-IsFilled mems [] h = h
invert-IsFilled mems ((membr, val) ∷ s) h =
    invert-IsFilled (insert val (bucket val mems ++ membr ∷ []) mems) s
      (All-insert IsFilled val _ mems (append-ne-nil _ membr) h)

invert-IsMap : (mems : Buckets) (s : Dict Text) → IsMap mems → IsMap (invert mems s)
unfolding invert
invert-IsMap mems [] h = h
invert-IsMap mems ((membr, val) ∷ s) h =
    invert-IsMap (insert val (bucket val mems ++ membr ∷ []) mems) s (insert-IsMap val _ mems h)

-- What a bucket of the inverted map holds.
abbrev pub IsBucket : Dict Text → Text × List Text → Type 0
IsBucket s e = (e.1 ≡ reporters e.0 s) × (e.1 ≢ [])

pub inverted_entries : (s : Dict Text) → All (IsBucket s) (invert [] s)
unfolding lookup
inverted_entries s =
    All-both _ _ _ (λ e look full. (cc (ap (λ o. get_or o []) look, bucket-invert e.0 [] s), full))
      (invert [] s) (IsMap-lookup (invert [] s) (invert-IsMap [] s tt)) (invert-IsFilled [] s tt)

-- Every checksum that was reported has its bucket.
pub reported_bucket :
    (s : Dict Text) (v : Text) → reporters v s ≢ [] → lookup v (invert [] s) ≡ some (reporters v s)
unfolding lookup
reported_bucket s v h = ground (arith, bucket-invert v [] s, Option-cases (lookup v (invert [] s)))

-- What `least` returns: a bound on all buckets, which it was given or found in a bucket.
pub record IsLeast (P : Text × List Text → Type 0) (d : ℕ) (i : List Text) (mems : Buckets)
    (r : ℕ × List Text) : Type 0 where
  pub below : r.0 ≤ d
  pub bound : All (λ e. r.0 ≤ length e.1) mems
  pub origin : (r ≡ (d, i)) ⊎ ((r.0 < d) × (r.0 ≡ length r.1) × ((v : Text) × P (v, r.1)))

pub least_lem :
    (P : Text × List Text → Type 0) (d : ℕ) (i : List Text) (mems : Buckets)
    → All P mems
    → IsLeast P d i mems (least d i mems)
unfolding least
least_lem P d i [] h = record { below = omega arith; bound = tt; origin = inl refl }
least_lem P d i ((v, b) ∷ mems) h =
    least_cons (least_lem P (length b) b mems h.1) (least_lem P d i mems h.1)
  where
    found :
        ltb (length b) d ≡ true
        → (r : ℕ × List Text)
        → (r ≡ (length b, b)) ⊎ ((r.0 < length b) × (r.0 ≡ length r.1) × ((v : Text) × P (v, r.1)))
        → (r ≡ (d, i)) ⊎ ((r.0 < d) × (r.0 ≡ length r.1) × ((v : Text) × P (v, r.1)))
    found e r (inl q) = inr (ground arith, ground arith, (v, rw q h.0))
    found e r (inr q) = inr (ground arith, q.1, q.2)

    least_cons :
        IsLeast P (length b) b mems (least (length b) b mems)
        → IsLeast P d i mems (least d i mems)
        → IsLeast P d i ((v, b) ∷ mems) (least d i ((v, b) ∷ mems))
    least_cons s k = elim (Bool-cases (ltb (length b) d)) [
      | inl e ↦
          rw (e, least)
            (record {
              below = ground (arith, s.below);
              bound = (s.below, s.bound);
              origin = found e (least (length b) b mems) s.origin;
            })
      | inr e ↦
          rw (e, least)
            (record {
              below = k.below;
              bound = (ground (arith, k.below), k.bound);
              origin = k.origin;
            })
    ]

pub length-reporters-le : (v : Text) (s : Dict Text) → length (reporters v s) ≤ length s
length-reporters-le v [] = omega arith
length-reporters-le v (e ∷ s) = ground (arith, length-reporters-le v s)

-- If all members report a checksum, it is that of each entry, and the other way round.
pub All-report :
    (v : Text) (s : Dict Text) → length s ≤ length (reporters v s) → All (λ e. e.1 ≡ v) s
All-report v [] h = tt
All-report v ((l, w) ∷ s) h = (
  ground (arith, length-reporters-le v s, eq_iff w v),
  All-report v s (ground (arith, length-reporters-le v s)),
)

pub reporters_of_All :
    (v : Text) (s : Dict Text) → All (λ e. e.1 ≡ v) s → length (reporters v s) ≡ length s
reporters_of_All v [] h = refl
reporters_of_All v ((l, w) ∷ s) h = ground (arith, eq_iff w v, reporters_of_All v s h.1)

pub each_reported : (s : Dict Text) → All (λ e. reporters e.1 s ≢ []) s
each_reported [] = tt
each_reported ((l, v) ∷ s) =
    (ground (arith, eq_refl v), All-map _ _ s (λ e h. ground arith) (each_reported s))

-- A checksum with a reporter is that of an entry.
pub reported_entry :
    (P : Text → Type 0) (v : Text) (s : Dict Text) → All (λ e. P e.1) s → reporters v s ≢ [] → P v
reported_entry P v [] h k = absurd (k refl)
reported_entry P v ((l, w) ∷ s) h k = elim (Bool-cases (w == v)) [
  | inl e ↦ subst P ((eq_iff w v).0 e) h.0
  | inr e ↦ reported_entry P v s h.1 (ground arith)
]
