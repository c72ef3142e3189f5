-- ===== src/Crypto/Cipher.antt =====
-- crypto/cipher.go
use mathlib.Core.List.{append-nil, append_assoc}
use zero_comm.Prelude.{
  ℕ, zero, suc, ◌+◌, ◌-◌, ◌≤◌, ◌<◌, Text, Option, none, some, [], ◌∷◌, ◌++◌, ◌≡◌, refl, sym, subst,
  ◌⊎◌, arith, length, length-append, length-replicate, take, replicate, eqb, ltb, if◌then◌else◌,
  Bool-cases, inl, inr, Result, ok, panic,
}

abbrev pub nonce_bytes : ℕ
nonce_bytes = 24

-- The loop that appends the digit 0 until the nonce is long enough; `none` means that the fuel ran
-- out.
pad : ℕ → Text → Option Text
pad zero nonce = none
pad (suc fuel) nonce =
    let rest = pad fuel (nonce ++ 48 ∷ []) in
    if eqb (length nonce) nonce_bytes then some nonce else rest

-- `nonce_bytes + 1` rounds are enough.
unfoldable pub modify_nonce : Text → Option Text
unfolding pad
modify_nonce nonce =
    if ltb (length nonce) nonce_bytes
    then pad (nonce_bytes + 1) nonce
    else if ltb nonce_bytes (length nonce)
    then some (take nonce_bytes nonce)
    else some nonce

-- libsodium: each function returns its output and a code, 0 for success; the detached mode of
-- chacha20poly1305 reports its error. The functions are total here: a panic of their wrapper on a key
-- of a wrong size is left out.
pub record Sodium : Type 0 where
  pub crypto_box : Text → Text → Text → Text → Text × ℕ
  pub crypto_box_open : Text → Text → Text → Text → Text × ℕ
  pub crypto_box_seal : Text → Text → Text × ℕ
  pub crypto_box_seal_open : Text → Text → Text → Text × ℕ
  pub encrypt_detached : Text → Text → Text → Text → Text × Text
  pub decrypt_detached : Text → Text → Text → Text → Text → Result Text

abbrev with_nonce : Option Text → (Text → Text × ℕ) → Result Text
with_nonce none f = panic
with_nonce (some n) f = ok (f n).0

module _ (s : Sodium) where
  -- encryptor.Box, and the next three: the code is dropped.
  unfoldable pub box : Text → Text → Text → Text → Result Text
  box payload nonce peer_pub_key my_sec_key =
      with_nonce (modify_nonce nonce) λ n. s.crypto_box payload n peer_pub_key my_sec_key

  unfoldable pub box_open : Text → Text → Text → Text → Result Text
  box_open cipher nonce peer_pub_key my_sec_key =
      with_nonce (modify_nonce nonce) λ n. s.crypto_box_open cipher n peer_pub_key my_sec_key

  unfoldable pub seal_box : Text → Text → Result Text
  seal_box payload peer_pub_key = ok (s.crypto_box_seal payload peer_pub_key).0

  unfoldable pub seal_box_open : Text → Text → Text → Result Text
  seal_box_open cipher peer_pub_key my_sec_key =
      ok (s.crypto_box_seal_open cipher peer_pub_key my_sec_key).0

-- copy into an array of `n` zero bytes
abbrev pub fit : ℕ → Text → Text
fit n t = take n t ++ replicate (n - length t) 0

abbrev pub chacha_nonce_bytes : ℕ
chacha_nonce_bytes = 12

abbrev pub chacha_key_bytes : ℕ
chacha_key_bytes = 32

module _ (s : Sodium) where
  unfoldable pub encrypt_detached : Text → Text → Text → Text → Result (Text × Text)
  encrypt_detached msg protected_val nonce key = ok (
      s.encrypt_detached msg protected_val (fit chacha_nonce_bytes nonce)
        (fit chacha_key_bytes key))

  unfoldable pub decrypt_detached : Text → Text → Text → Text → Text → Result Text
  decrypt_detached cipher mac protected_val nonce key =
      s.decrypt_detached cipher mac protected_val (fit chacha_nonce_bytes nonce)
        (fit chacha_key_bytes key)

pad_lem :
    (n fuel : ℕ) (nonce : Text)
    → length nonce + n ≡ nonce_bytes
    → n < fuel
    → pad fuel nonce ≡ some (nonce ++ replicate n 48)
unfolding pad
pad_lem n zero nonce h k = absurd (omega arith)
pad_lem zero (suc fuel) nonce h k = ground (arith, append-nil nonce)
pad_lem (suc n) (suc fuel) nonce h k = ground (
  arith,
  length-append nonce (48 ∷ []),
  pad_lem n fuel (nonce ++ 48 ∷ []),
  append_assoc nonce (48 ∷ []) (replicate n 48),
)

length-take-min : (n : ℕ) (t : Text) → n ≤ length t → length (take n t) ≡ n
length-take-min zero t h = refl
length-take-min (suc n) [] h = absurd (omega arith)
length-take-min (suc n) (b ∷ t) h = omega (arith, length-take-min n t)

take-all : (t : Text) → take (length t) t ≡ t
take-all [] = refl
take-all (b ∷ t) = rw (take-all t)

-- The nonce that is used has 24 bytes, whatever the nonce of the message is: the first 24 bytes of
-- it, or all of it and the digit 0 up to that length. The loop ends within its fuel.
pub modify_nonce_lem :
    (nonce : Text)
    → (n : Text) × (modify_nonce nonce ≡ some n)
      × (length n ≡ nonce_bytes)
      × ((n ≡ take nonce_bytes nonce) ⊎ (n ≡ nonce ++ replicate (nonce_bytes - length nonce) 48))
unfolding modify_nonce
modify_nonce_lem nonce = elim (Bool-cases (ltb (length nonce) nonce_bytes)) [
  | inl short ↦ (
    nonce ++ replicate (nonce_bytes - length nonce) 48,
    rw (short, modify_nonce)
        (pad_lem (nonce_bytes - length nonce) (nonce_bytes + 1) nonce (ground arith) (omega arith)),
    ground (
      arith,
      length-append nonce (replicate (nonce_bytes - length nonce) 48),
      length-replicate {A = ℕ} (nonce_bytes - length nonce) 48,
    ),
    inr refl,
  )
  | inr long ↦ elim (Bool-cases (ltb nonce_bytes (length nonce))) [
    | inl cut ↦ (
      take nonce_bytes nonce,
      rw (long, modify_nonce) (rw cut refl),
      length-take-min nonce_bytes nonce (ground arith),
      inl refl,
    )
    | inr exact ↦ (
      nonce,
      rw (long, modify_nonce) (rw exact refl),
      ground arith,
      inl (
          subst (λ n. nonce ≡ take n nonce) {y = nonce_bytes} (ground arith)
            (sym (take-all nonce))),
    )
  ]
]
