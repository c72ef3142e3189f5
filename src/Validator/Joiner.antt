-- ===== src/Validator/Joiner.antt =====
-- `ValidJoin` of pubsub/validator/init.go.
use mathlib.Core.List.{Permᴰ}
use zero_comm.Prelude.{
  Text, List, [], ◌∷◌, ◌≡◌, ◌≢◌, inl, inr, refl, sym, ◌∙◌, arith, All, All-map, ok, ◌==◌, eq_iff,
  eq_refl, >>=-eq-ok, Bool-cases, ◌↔◌, some, none,
}
use zero_comm.Prelude.Dict.{Dict, insert, lookup, lookup-insert, All-lookup, IsMap}
use zero_comm.Domain.{Member}
use zero_comm.Validator.{Buckets, calculate, valid_join, Digest}
use zero_comm.Validator.Verdict.{Agree, verify_iff}

-- Every member but the acceptor reported the checksum `c`.
abbrev pub OthersReport : Text → Text → Dict Text → Type 0
OthersReport accptr c = All (λ e. e.0 ≢ accptr → e.1 ≡ c)

All-of_others :
    (k c : Text) (m : Dict Text) → OthersReport k c m → IsMap m → All (λ e. e.1 ≡ c) (insert k c m)
unfolding insert lookup
All-of_others k c [] h u = (refl, tt)
All-of_others k c ((j, v) ∷ m) h u = elim (Bool-cases (j == k)) [
  | inl hit ↦ rw (hit, insert) (refl, apart m h.1 (rw (← (eq_iff j k).0 hit) u.0))
  | inr miss ↦
      rw (miss, insert) (h.0 (λ e. ground (arith, eq_iff j k)), All-of_others k c m h.1 u.1)
]
  where
    apart : (m : Dict Text) → OthersReport k c m → lookup k m ≡ none → All (λ e. e.1 ≡ c) m
    apart [] h e = tt
    apart ((i, w) ∷ m) h e = (h.0 (λ q. ground (arith, eq_iff i k)), apart m h.1 (ground arith))

others_of_All :
    (k c : Text) (m : Dict Text) → All (λ e. e.1 ≡ c) (insert k c m) → OthersReport k c m
unfolding insert
others_of_All k c [] h = tt
others_of_All k c ((j, v) ∷ m) h = elim (Bool-cases (j == k)) [
  | inl hit ↦
      let rest = (rw (hit, insert) at h).1 in
      ((λ q. absurd (q ((eq_iff j k).0 hit))), All-map _ _ m (λ e g _. g) rest)
  | inr miss ↦ let split = rw (miss, insert) at h in ((λ q. split.0), others_of_All k c m split.1)
]

-- With one known checksum in the map, agreement is agreement with it.
Agree-iff : (k c : Text) (m : Dict Text) → Agree (insert k c m) ↔ All (λ e. e.1 ≡ c) (insert k c m)
Agree-iff k c m = (
  (λ h.
      let all = All-lookup (λ e. All (λ f. f.1 ≡ e.1) (insert k c m)) (insert k c m) k c h found in
      all),
  λ h. All-map _ _ (insert k c m) (λ e p. All-map _ _ _ (λ f q. q ∙ sym p) h) h,
)
  where
    found : lookup k (insert k c m) ≡ some c
    found = rw (lookup-insert, eq_refl k)

module _ (range_mems : Buckets → Buckets) (covers : (m : Buckets) → Permᴰ m (range_mems m)) where
  -- Where the checksum of the joined set is `c`, the join is valid exactly when every member but the
  -- acceptor reported `c`; the acceptor's entry is then `c` too.
  pub valid_join_iff :
      (d : Digest) (accptr : Text) (joined : List Member) (hashes : Dict Text) (c : Text)
      → calculate d joined ≡ ok c
      → IsMap hashes
      → (valid_join d range_mems accptr joined hashes ≡ ok (insert accptr c hashes))
        ↔ OthersReport accptr c hashes
  unfolding valid_join
  valid_join_iff d accptr joined hashes c e u = (
    λ v. others_of_All accptr c hashes (
        (Agree-iff accptr c hashes).0
          ((verify_iff range_mems covers (insert accptr c hashes)).0 (ground arith))),
    λ o. ground (
      arith,
      (verify_iff range_mems covers (insert accptr c hashes)).1
          ((Agree-iff accptr c hashes).1 (All-of_others accptr c hashes o u)),
    ),
  )

-- A join that is valid has the checksum of the joined set.
pub valid_join_ok :
    (d : Digest) (range_mems : Buckets → Buckets) (accptr : Text) (joined : List Member)
    (hashes all : Dict Text)
    → valid_join d range_mems accptr joined hashes ≡ ok all
    → (c : Text) × (calculate d joined ≡ ok c)
      × (valid_join d range_mems accptr joined hashes ≡ ok (insert accptr c hashes))
unfolding valid_join
valid_join_ok d range_mems accptr joined hashes all e =
    let (c, summed, rest) = >>=-eq-ok (calculate d joined) _ e in
    (c, summed, ground (arith, summed, rest))
