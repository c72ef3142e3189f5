-- ===== src/Prelude/Outcome.antt =====
-- The result of a Go call: a value, an error, or a panic. Errors are named by the failure that
-- they report; the text that a caller wraps round an error is not kept.
use mathlib.Core.Path.{◌≡◌, refl}
use zero_comm.Prelude.Bytes.{Text}
use mathlib.Core.Option.{Option, none, some}

pub data Error : Type 0 where
  marshalling unmarshalling decoding invalid_mode no_topic no_member not_publisher : Error
  inconsistent no_key no_peer no_service no_recipient no_did no_inv_service no_inv_key : Error
  invalid_did wrong_did already_joined timed_out sending receiving encrypting decrypting : Error
  generating not_intended bad_role socket no_handler terminated no_transport_key bad_url
        not_eligible :
      Error

pub data Result {ℓ} (A : Type ℓ) : Type ℓ where
  panic : Result A
  err : Error → Result A
  ok : A → Result A

-- a dereference of a pointer that may be nil
abbrev pub deref {ℓ} : {A : Type ℓ} → Option A → Result A
deref (some a) = ok a
deref none = panic

abbrev pub or_err {ℓ} : {A : Type ℓ} → Option A → Error → Result A
or_err (some a) e = ok a
or_err none e = err e

module _ {ℓ κ} {A : Type ℓ} {B : Type κ} where
  infixl 5 ◌>>◌ ◌>>=◌
  -- the code after `if err != nil { return ..., err }`
  abbrev pub ◌>>=◌ : Result A → (A → Result B) → Result B
  panic >>= next = panic
  err why >>= next = err why
  ok a >>= next = next a

  abbrev pub ◌>>◌ : Result A → Result B → Result B
  this >> next = this >>= λ _. next

  -- Where a chain succeeds, its first call did.
  pub >>=-eq-ok :
      (r : Result A) (next : A → Result B) {last : B}
      → (r >>= next) ≡ ok last
      → (a : A) × (r ≡ ok a) × (next a ≡ ok last)
  >>=-eq-ok panic next e = cc
  >>=-eq-ok (err why) next e = cc
  >>=-eq-ok (ok a) next e = (a, refl, e)

-- json.Marshal and json.Unmarshal at a type.
pub record Codec (A : Type 0) : Type 0 where
  pub marshal : A → Result Text
  pub unmarshal : Text → Result A

-- The documented behaviour of the two on the structs of the program: a value has an encoding, from
-- which it comes back.
pub record RoundTrips {A : Type 0} (c : Codec A) : Type 0 where
  pub trips : (a : A) → (t : Text) × (c.marshal a ≡ ok t) × (c.unmarshal t ≡ ok a)

-- Where a codec reads what it wrote, so does the same codec elsewhere.
pub unmarshal-marshalled :
    {A : Type 0} (c d : Codec A) (a : A) (t : Text)
    → RoundTrips c
    → d ≡ c
    → c.marshal a ≡ ok t
    → d.unmarshal t ≡ ok a
unmarshal-marshalled c d a t trips same written =
    let (u, m, back) = trips.trips a in let e : u ≡ t = cc in rw same (rw (← e) back)
