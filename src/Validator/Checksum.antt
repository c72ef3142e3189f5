-- ===== src/Validator/Checksum.antt =====
-- `Calculate` of pubsub/validator/init.go.
use mathlib.Core.List.{Permᴰ}
use zero_comm.Prelude.{
  Text, List, [], ◌∷◌, ◌≡◌, ◌≤◌, ◌⊎◌, inl, inr, refl, arith, ok, panic, ◌>>=◌, length, text,
}
use zero_comm.Prelude.Buffer.{encode_into, trim, trim-encode_into}
use zero_comm.Prelude.Base64.{encode, std, length-encode, encode_nonzero, IsBytes}
use zero_comm.Prelude.Sort.{sort}
use zero_comm.Domain.{Member}
use zero_comm.Validator.{Digest, calculate, order, pick}
use zero_comm.Validator.Order.{Distinct, order-eq_of_perm, order-ne-nil}

-- The documented behaviour of json.Marshal and SHA-256: a list of structs always has an encoding;
-- a nil slice is `null`; one member with all its field names takes over 44 bytes; a hash is 32
-- bytes.
pub record IsDigest (d : Digest) : Type 0 where
  pub nil_null : d.marshal [] ≡ ok (text "null")
  pub encodes :
      (m : Member) (ms : List Member) → (b : Text) × (d.marshal (m ∷ ms) ≡ ok b) × (44 ≤ length b)
  pub hash_length : (b : Text) → length (d.sha256 b) ≡ 32
  pub hash_bytes : (b : Text) → IsBytes (d.sha256 b)

-- Every order in which the map of members is visited gives the same checksum.
pub calculate-eq_of_perm :
    (d : Digest) (g h : List Member) → Permᴰ g h → Distinct g → calculate d g ≡ calculate d h
unfolding calculate
calculate-eq_of_perm d g h p k = rw (order-eq_of_perm g h p k)

module _ (d : Digest) (h : IsDigest d) where
  encode_into_room :
      (b : Text)
      → 44 ≤ length b
      → (encode_into (length b) (encode std (d.sha256 b)) >>= λ val. ok (trim val))
        ≡ ok (encode std (d.sha256 b))
  encode_into_room b k =
      trim-encode_into (length b) (encode std (d.sha256 b))
        (encode_nonzero std (d.sha256 b) (h.hash_bytes b))
        (omega (arith, length-encode std (d.sha256 b), h.hash_length b))

  calculate_of_order :
      (g : List Member) (m : Member) (ms : List Member)
      → order g ≡ m ∷ ms
      → (b : Text) × (d.marshal (order g) ≡ ok b) × (calculate d g ≡ ok (encode std (d.sha256 b)))
  unfolding calculate
  calculate_of_order g m ms e =
      let (b, eq, room) = h.encodes m ms in
      (b, rw e eq, rw (e, eq, ◌>>=◌) (encode_into_room b room))

  pub empty_group_panics : calculate d [] ≡ panic
  unfolding calculate order encode_into pick sort
  empty_group_panics =
      ground
        (arith, h.nil_null, length-encode std (d.sha256 (text "null")), h.hash_length (text "null"))

  -- `Calculate` returns the base64 text of the hash of the ordered members, and on the empty group
  -- alone it panics.
  pub calculate_outcome :
      (g : List Member)
      → ((g ≡ []) × (calculate d g ≡ panic))
        ⊎ ((b : Text) × (d.marshal (order g) ≡ ok b)
            × (calculate d g ≡ ok (encode std (d.sha256 b))))
  calculate_outcome [] = inl (refl, empty_group_panics)
  calculate_outcome (m ∷ g) = inr (ordered (order (m ∷ g)) refl)
    where
      ordered :
          (ms : List Member)
          → order (m ∷ g) ≡ ms
          → (b : Text) × (d.marshal (order (m ∷ g)) ≡ ok b)
            × (calculate d (m ∷ g) ≡ ok (encode std (d.sha256 b)))
      ordered [] e = absurd (order-ne-nil m g e)
      ordered (x ∷ xs) e = calculate_of_order (m ∷ g) x xs e
