-- ===== src/Validator/Examples.antt =====
-- Tests of pubsub/validator/init.go, and its theorems at concrete groups.
use mathlib.Core.List.{Perm, Permᴰ}
use mathlib.Core.List.Permᴰ
use zero_comm.Prelude.{
  ℕ, zero, suc, ap, ne_of_test, ◌%◌, ◌≤◌, ◌<◌, Text, text, List, [], ◌∷◌, ◌++◌, ◌≡◌, ◌≢◌, refl,
  arith, Result, ok, panic, true, false, length, length-append, length-replicate, replicate, ◌⊎◌,
  ◌↔◌,
}
use zero_comm.Prelude.Base64.{IsBytes, encode, std}
use zero_comm.Prelude.Sort.{sort, IsSorted}
use zero_comm.Prelude.Dict.{Dict, insert, lookup}
use zero_comm.Domain.{Member}
use zero_comm.Validator.{Digest, order, calculate, verify, valid_join, labels, Buckets}
use zero_comm.Validator.Order.{Distinct, order_sorts, order-eq_of_perm}
use zero_comm.Validator.Checksum.{IsDigest, calculate-eq_of_perm, calculate_outcome}
use zero_comm.Validator.Majority.{reporters}
use zero_comm.Validator.Verdict.{Agree, verify_iff, verify_deviated}
use zero_comm.Validator.Joiner.{OthersReport, valid_join_iff}

abbrev pub member : Text → Member
member l = record { active = true; publisher = true; label = l; inv = []; pub_endpoint = l }

abbrev pub alice : Text
alice = text "al"

abbrev pub bob : Text
bob = text "bo"

abbrev pub carol : Text
carol = text "ca"

abbrev pub group : List Member
group = member bob ∷ member alice ∷ []

-- A stand-in for JSON and SHA-256.
abbrev all_labels : List Member → Text
all_labels [] = []
all_labels (m ∷ ms) = m.label ++ all_labels ms

abbrev marshal_sample : List Member → Result Text
marshal_sample [] = ok (text "null")
marshal_sample (m ∷ ms) = ok (replicate 44 32 ++ all_labels (m ∷ ms))

abbrev pub sample : Digest
sample = record { marshal = marshal_sample; sha256 = λ b. replicate 32 (length b % 256) }

replicate-IsBytes : (n b : ℕ) → b < 256 → IsBytes (replicate n b)
replicate-IsBytes zero b h = tt
replicate-IsBytes (suc n) b h = (h, replicate-IsBytes n b h)

pub sample-IsDigest : IsDigest sample
sample-IsDigest = record {
  nil_null = refl;
  encodes = λ m ms. (
    replicate 44 32 ++ all_labels (m ∷ ms),
    refl,
    omega (
      arith,
      length-append (replicate 44 32) (all_labels (m ∷ ms)),
      length-replicate {A = ℕ} 44 32,
    ),
  );
  hash_length = λ b. length-replicate 32 (length b % 256);
  hash_bytes = λ b. replicate-IsBytes 32 (length b % 256) (omega arith);
}

group-Distinct : Distinct group
group-Distinct = ((ne_of_test alice bob refl, tt), (tt, tt))

order-group : order group ≡ member alice ∷ member bob ∷ []
unfolding order sort
order-group = refl

order_sorts_example : Perm (order group) group × IsSorted (labels (order group))
order_sorts_example = order_sorts group group-Distinct

group-swap : Permᴰ group (member alice ∷ member bob ∷ [])
group-swap = Permᴰ.swap refl refl

order-eq_of_perm_example : order group ≡ order (member alice ∷ member bob ∷ [])
order-eq_of_perm_example =
    order-eq_of_perm group (member alice ∷ member bob ∷ []) group-swap group-Distinct

calculate-eq_of_perm_example :
    calculate sample group ≡ calculate sample (member alice ∷ member bob ∷ [])
calculate-eq_of_perm_example =
    calculate-eq_of_perm sample group (member alice ∷ member bob ∷ []) group-swap group-Distinct

calculate_outcome_example :
    ((group ≡ []) × (calculate sample group ≡ panic))
    ⊎ ((b : Text) × (sample.marshal (order group) ≡ ok b)
        × (calculate sample group ≡ ok (encode std (sample.sha256 b))))
calculate_outcome_example = calculate_outcome sample sample-IsDigest group

abbrev pub same_order : Buckets → Buckets
same_order m = m

pub same_order_covers : (m : Buckets) → Permᴰ m (same_order m)
same_order_covers m = Permᴰ.refl m

abbrev states : Dict Text
states = (alice, text "x") ∷ (bob, text "y") ∷ (carol, text "x") ∷ []

verify-states : verify same_order states ≡ (bob ∷ [], false)
unfolding verify lookup insert
verify-states = refl

verify_iff_example : ((verify same_order states).1 ≡ true) ↔ Agree states
verify_iff_example = verify_iff same_order same_order_covers states

verify_deviated_example :
    (v : Text) × ((verify same_order states).0 ≡ reporters v states)
    × (reporters v states ≢ [])
    × (length (reporters v states) < length states)
    × ((w : Text)
        → reporters w states ≢ []
        → length (reporters v states) ≤ length (reporters w states))
verify_deviated_example =
    verify_deviated same_order same_order_covers states (ap (λ p. p.1) verify-states)

abbrev pub group_sum : Text
group_sum = encode std (replicate 32 48)

calculate-group : calculate sample group ≡ ok group_sum
unfolding calculate order sort encode
calculate-group = refl

valid_join_iff_example :
    (valid_join sample same_order alice group ((bob, text "y") ∷ [])
      ≡ ok (insert alice group_sum ((bob, text "y") ∷ [])))
    ↔ OthersReport alice group_sum ((bob, text "y") ∷ [])
unfolding lookup
valid_join_iff_example =
    valid_join_iff same_order same_order_covers sample alice group ((bob, text "y") ∷ []) group_sum
      calculate-group (refl, tt)
