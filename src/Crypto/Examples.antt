-- ===== src/Crypto/Examples.antt =====
-- Tests of crypto, and its theorems at concrete keys, messages and stand-ins for libsodium and JSON.
use zero_comm.Prelude.{
  ℕ, Text, text, List, [], ◌∷◌, ◌++◌, some, ◌≡◌, refl, ap, arith, Result, ok, err, unmarshalling,
  true, Codec, RoundTrips, is_some, replicate, length, take, ◌-◌, ◌⊎◌, ◌∙◌, subst, sym, eq_iff,
}
use zero_comm.Prelude.Dict.{lookup}
use zero_comm.Prelude.Base64.{IsBytes}
use zero_comm.Samples.{seal, unseal, unseal-seal, seal-IsBytes, fields, unfields, unfields-unseal}
use zero_comm.Domain.{AuthCryptMsg, Payload, Recipient}
use zero_comm.Crypto.Keys.{
  Keys, KeyManager, new_key_manager, generate_keys, private_key, public_key, peer,
  generate_inv_keys, keys_after_generate_keys, peer-public_key, DistinctKeys,
  generate_inv_keys_once,
}
use zero_comm.Crypto.Cipher.{Sodium, modify_nonce, modify_nonce_lem, nonce_bytes}
use zero_comm.Crypto.Packer.{Packing, Drawn, pack, unpack}
use zero_comm.Crypto.Packer.Trip.{Opens, unpack-pack, unpack_ignores_codes}

abbrev sodium : Sodium
sodium = record {
  crypto_box = λ m n pk sk. (seal m, 0);
  crypto_box_open = λ c n pk sk. (unseal 0 c, 0);
  crypto_box_seal = λ m pk. (seal m, 0);
  crypto_box_seal_open = λ c pk sk. (unseal 0 c, 0);
  encrypt_detached = λ m ad n k. (seal m, 7 ∷ []);
  decrypt_detached = λ c mac ad n k. ok (unseal 0 c);
}

pub opens : (a b c d : Text) → Opens sodium a b c d
opens a b c d = record {
  box_opens = λ m n. unseal-seal m;
  seal_opens = unseal-seal;
  detached_opens = λ m ad n k. ap ok (unseal-seal m);
  box_bytes = λ m n. seal-IsBytes m;
  seal_bytes = seal-IsBytes;
  detached_bytes = λ m ad n k. (seal-IsBytes m, (omega arith, tt));
}

abbrev read_message : List Text → Result AuthCryptMsg
read_message (a ∷ b ∷ c ∷ d ∷ []) = ok (record { protected = a; iv = b; ciphertext = c; tag = d })
read_message _ = err unmarshalling

abbrev pub messages : Codec AuthCryptMsg
messages = record {
  marshal = λ m. ok (seal (fields (m.protected ∷ m.iv ∷ m.ciphertext ∷ m.tag ∷ [])));
  unmarshal = λ t. read_message (unfields (unseal 0 t));
}

pub messages-RoundTrips : RoundTrips messages
messages-RoundTrips = record {
  trips = λ m.
      let ts = m.protected ∷ m.iv ∷ m.ciphertext ∷ m.tag ∷ [] in
      (seal (fields ts), refl, ap read_message (unfields-unseal ts));
}

abbrev write_recipients : List Recipient → List Text
write_recipients [] = []
write_recipients (r ∷ rs) =
    r.encrypted_key ∷ r.header.kid ∷ r.header.iv ∷ r.header.sender ∷ write_recipients rs

abbrev read_recipients : List Text → List Recipient
read_recipients (a ∷ b ∷ c ∷ d ∷ ts) =
    record { encrypted_key = a; header = record { kid = b; iv = c; sender = d } }
    ∷ read_recipients ts
read_recipients _ = []

read-write : (rs : List Recipient) → read_recipients (write_recipients rs) ≡ rs
read-write [] = refl
read-write (r ∷ rs) = ap (λ x. r ∷ x) (read-write rs)

abbrev read_payload : List Text → Result Payload
read_payload (a ∷ b ∷ c ∷ ts) =
    ok (record { enc = a; typ = b; alg = c; recipients = read_recipients ts })
read_payload _ = err unmarshalling

abbrev payload_texts : Payload → List Text
payload_texts p = p.enc ∷ p.typ ∷ p.alg ∷ write_recipients p.recipients

abbrev pub payloads : Codec Payload
payloads = record {
  marshal = λ p. ok (seal (fields (payload_texts p)));
  unmarshal = λ t. read_payload (unfields (unseal 0 t));
}

pub payloads-RoundTrips : RoundTrips payloads
payloads-RoundTrips = record {
  trips = λ p. (
    seal (fields (payload_texts p)),
    refl,
    ap read_payload (unfields-unseal (payload_texts p))
        ∙ ap (λ rs. ok (record { enc = p.enc; typ = p.typ; alg = p.alg; recipients = rs }))
            (read-write p.recipients),
  );
}

abbrev OkBytes : Result Text → Type 0
OkBytes (ok t) = IsBytes t
OkBytes _ = Unit

pub payloads-IsBytes : (x : Payload) (t : Text) → payloads.marshal x ≡ ok t → IsBytes t
payloads-IsBytes x t e =
    subst (λ (r : Result Text). OkBytes r) e (seal-IsBytes (fields (payload_texts x)))

abbrev pub packing : Packing
packing = record {
  sodium = sodium;
  messages = messages;
  payloads = payloads;
  base58_encode = λ t. t;
}

abbrev pub drawn : Drawn
drawn = record { cek_iv = text "1234"; cek = ok (text "key"); iv = text "56" }

unpack-pack_example :
    (msg : AuthCryptMsg) × (packed : Text) × (pack packing drawn
        (text "hi")
        (text "rp")
        (text "sp")
        (text "ss")
      ≡ ok msg)
    × (messages.marshal msg ≡ ok packed)
    × (unpack packing packed (text "rp") (text "rs") ≡ ok (text "hi"))
unpack-pack_example =
    unpack-pack packing (text "sp") (text "ss") (text "rp") (text "rs")
      (opens (text "sp") (text "ss") (text "rp") (text "rs")) drawn (text "key") (text "hi")
      messages-RoundTrips payloads-RoundTrips payloads-IsBytes
      (omega arith, (omega arith, (omega arith, (omega arith, tt))))
      (omega arith, (omega arith, tt)) refl

abbrev broken : Text → Text → Text → Text → Text × ℕ
broken c n pk sk = (unseal 0 c, 1)

unpack_ignores_codes_example :
    unpack
      (record packing { sodium = record sodium { crypto_box_open = broken } })
      (text "m")
      (text "rp")
      (text "rs")
    ≡ unpack packing (text "m") (text "rp") (text "rs")
unpack_ignores_codes_example =
    unpack_ignores_codes packing broken (λ c n k x. refl) (text "m") (text "rp") (text "rs")

abbrev ann_keys : Keys
ann_keys = record { public = text "pa"; private = text "sa" }

abbrev bea_keys : Keys
bea_keys = record { public = text "pb"; private = text "sb" }

abbrev ann_known : KeyManager
ann_known = record new_key_manager { key_store = (text "ann", ann_keys) ∷ [] }

keys_after_generate_keys_example :
    let after = (generate_keys (text "bea") (ok bea_keys) ann_known).1 in
    (public_key (text "bea") after ≡ ok (text "pb"))
    × (private_key (text "bea") after ≡ ok (text "sb"))
keys_after_generate_keys_example =
    keys_after_generate_keys (text "bea") (text "bea") bea_keys ann_known

only_ann : (p : Text) (x : Keys) → lookup p ann_known.key_store ≡ some x → p ≡ text "ann"
unfolding lookup
only_ann p x e = ground (arith, eq_iff (text "ann") p)

ann_known-DistinctKeys : DistinctKeys ann_known
ann_known-DistinctKeys p q x y e f g = only_ann p x e ∙ sym (only_ann q y f)

peer-public_key_example : peer (text "pa") ann_known ≡ ok (text "ann")
unfolding lookup public_key
peer-public_key_example =
    peer-public_key ann_known (text "ann") (text "pa") (refl, tt) ann_known-DistinctKeys (λ e. cc)
      refl

generate_inv_keys_once_example :
    let first_call = (generate_inv_keys (ok ann_keys) new_key_manager).1 in
    (generate_inv_keys (ok bea_keys) first_call ≡ (ok tt, first_call))
    × (is_some first_call.inv_pub_key ≡ true)
    × (is_some first_call.inv_prv_key ≡ true)
generate_inv_keys_once_example = generate_inv_keys_once ann_keys bea_keys new_key_manager

modify_nonce_lem_example :
    (n : Text) × (modify_nonce (text "1234") ≡ some n)
    × (length n ≡ nonce_bytes)
    × ((n ≡ take nonce_bytes (text "1234"))
        ⊎ (n ≡ text "1234" ++ replicate (nonce_bytes - length (text "1234")) 48))
modify_nonce_lem_example = modify_nonce_lem (text "1234")
