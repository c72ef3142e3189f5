-- ===== src/Crypto/Packer/Trip.antt =====
-- What crypto/packer.go packs, its recipient unpacks.
use mathlib.Core.Path.{fun_ext}
use zero_comm.Prelude.{ℕ, Text, ◌≡◌, refl, ap, Result, ok, ◌>>=◌, RoundTrips}
use zero_comm.Prelude.Base64.{encode, decode, std, IsBytes, decode-encode}
use zero_comm.Domain.{AuthCryptMsg, Payload}
use zero_comm.Crypto.Cipher.{
  Sodium, box, box_open, seal_box, seal_box_open, encrypt_detached, decrypt_detached,
  modify_nonce_lem, fit, chacha_nonce_bytes, chacha_key_bytes,
}
use zero_comm.Crypto.Packer.{Packing, Drawn, pack, unpack, payload_for, first_recipient}

-- The documented behaviour of libsodium on the keys of a sender and a recipient: a box, a sealed
-- box and a detached ciphertext open to what was put in, and outputs are bytes.
pub record Opens (s : Sodium) (send_pub send_prv rec_pub rec_prv : Text) : Type 0 where
  pub box_opens :
      (m n : Text)
      → (s.crypto_box_open (s.crypto_box m n rec_pub send_prv).0 n send_pub rec_prv).0 ≡ m
  pub seal_opens :
      (m : Text) → (s.crypto_box_seal_open (s.crypto_box_seal m rec_pub).0 rec_pub rec_prv).0 ≡ m
  pub detached_opens :
      (m ad n k : Text)
      → let sealed = s.encrypt_detached m ad n k in
        s.decrypt_detached sealed.0 sealed.1 ad n k ≡ ok m
  pub box_bytes : (m n : Text) → IsBytes (s.crypto_box m n rec_pub send_prv).0
  pub seal_bytes : (m : Text) → IsBytes (s.crypto_box_seal m rec_pub).0
  pub detached_bytes :
      (m ad n k : Text)
      → IsBytes (s.encrypt_detached m ad n k).0 × IsBytes (s.encrypt_detached m ad n k).1

module _ (p : Packing) (send_pub send_prv rec_pub rec_prv : Text)
    (opens : Opens p.sodium send_pub send_prv rec_pub rec_prv) where
  box_trip :
      (m nonce : Text)
      → (b : Text) × (box p.sodium m nonce rec_pub send_prv ≡ ok b)
        × (box_open p.sodium b nonce send_pub rec_prv ≡ ok m)
        × IsBytes b
  unfolding box box_open
  box_trip m nonce =
      let (n, e, _, _) = modify_nonce_lem nonce in
      (
        (p.sodium.crypto_box m n rec_pub send_prv).0,
        rw e refl,
        rw e (ap ok (opens.box_opens m n)),
        opens.box_bytes m n,
      )

  unpack_steps :
      (msg : AuthCryptMsg) (packed val cek cek_iv b cipher mac iv input : Text)
      → p.messages.unmarshal packed ≡ ok msg
      → decode std msg.protected ≡ ok val
      → p.payloads.unmarshal val
        ≡ ok (payload_for p rec_pub cek_iv b (p.sodium.crypto_box_seal send_pub rec_pub).0)
      → IsBytes cek_iv
      → IsBytes b
      → box_open p.sodium b cek_iv send_pub rec_prv ≡ ok cek
      → decode std msg.ciphertext ≡ ok cipher
      → decode std msg.tag ≡ ok mac
      → decode std msg.iv ≡ ok iv
      → decrypt_detached p.sodium cipher mac val iv cek ≡ ok input
      → unpack p packed rec_pub rec_prv ≡ ok input
  unfolding unpack seal_box_open
  unpack_steps msg packed val cek cek_iv b cipher mac iv input hm hv hp bi bb ho hc ht hi hd =
      rw hm (
        rw hv (
          rw hp (
            rw
              (decode-encode std (p.sodium.crypto_box_seal send_pub rec_pub).0
                (opens.seal_bytes send_pub))
              (rw (opens.seal_opens send_pub)
                (rw (decode-encode std b bb, decode-encode std cek_iv bi, ho, hc, ht, hi) hd)))))

  -- A packed message, its JSON, and the protected header in it.
  pub packed_parts :
      (drawn : Drawn) (cek input : Text)
      → RoundTrips p.messages
      → RoundTrips p.payloads
      → ((x : Payload) (t : Text) → p.payloads.marshal x ≡ ok t → IsBytes t)
      → IsBytes drawn.cek_iv
      → IsBytes drawn.iv
      → drawn.cek ≡ ok cek
      → (msg : AuthCryptMsg) × (packed : Text) × (pack p drawn input rec_pub send_pub send_prv
          ≡ ok msg)
        × (p.messages.marshal msg ≡ ok packed)
        × (unpack p packed rec_pub rec_prv ≡ ok input)
        × (p.messages.unmarshal packed ≡ ok msg)
        × (val : Text) × (decode std msg.protected ≡ ok val)
        × (b : Text) × (key : Text) × (p.payloads.unmarshal val
            ≡ ok (payload_for p rec_pub drawn.cek_iv b key))
  unfolding pack seal_box encrypt_detached decrypt_detached
  packed_parts drawn cek input tm tp pb bi bv hc =
      let (b, eb, ob, bb) = box_trip cek drawn.cek_iv in
      let sealed_key = (p.sodium.crypto_box_seal send_pub rec_pub).0 in
      let payload = payload_for p rec_pub drawn.cek_iv b sealed_key in
      let (val, ev, dv) = tp.trips payload in
      let sealed =
        p.sodium.encrypt_detached input val (fit chacha_nonce_bytes drawn.iv)
          (fit chacha_key_bytes cek) in
      let msg : AuthCryptMsg = record {
        protected = encode std val;
        iv = encode std drawn.iv;
        ciphertext = encode std sealed.0;
        tag = encode std sealed.1;
      } in
      let (packed, em, dm) = tm.trips msg in
      let bytes =
        opens.detached_bytes input val (fit chacha_nonce_bytes drawn.iv)
          (fit chacha_key_bytes cek) in
      (
        msg,
        packed,
        rw hc (rw eb (rw ev refl)),
        em,
        unpack_steps msg packed val cek drawn.cek_iv b sealed.0 sealed.1 drawn.iv input dm
            (decode-encode std val (pb payload val ev)) dv bi bb ob
            (decode-encode std sealed.0 bytes.0) (decode-encode std sealed.1 bytes.1)
            (decode-encode std drawn.iv bv) (opens.detached_opens input val _ _),
        dm,
        val,
        decode-encode std val (pb payload val ev),
        b,
        sealed_key,
        dv,
      )

  -- Whatever was packed for a recipient, with any nonces and any key, is what the recipient unpacks
  -- from the encoded message.
  pub unpack-pack :
      (drawn : Drawn) (cek input : Text)
      → RoundTrips p.messages
      → RoundTrips p.payloads
      → ((x : Payload) (t : Text) → p.payloads.marshal x ≡ ok t → IsBytes t)
      → IsBytes drawn.cek_iv
      → IsBytes drawn.iv
      → drawn.cek ≡ ok cek
      → (msg : AuthCryptMsg) × (packed : Text) × (pack p drawn input rec_pub send_pub send_prv
          ≡ ok msg)
        × (p.messages.marshal msg ≡ ok packed)
        × (unpack p packed rec_pub rec_prv ≡ ok input)
  unpack-pack drawn cek input tm tp pb bi bv hc =
      let (msg, packed, packs, marshals, unpacks, _, _, _, _, _, _) =
        packed_parts drawn cek input tm tp pb bi bv hc in
      (msg, packed, packs, marshals, unpacks)

-- Unpack with another way to open a box.
unpack_by : (Text → Text → Text → Text → Result Text) → Packing → Text → Text → Text → Result Text
unpack_by open_box p packed rec_pub_key rec_prv_key = do
  msg ← p.messages.unmarshal packed
  decoded_val ← decode std msg.protected
  payload ← p.payloads.unmarshal decoded_val
  rec ← first_recipient payload.recipients
  decoded_send_key ← decode std rec.header.sender
  send_pub_key ← seal_box_open p.sodium decoded_send_key rec_pub_key rec_prv_key
  decoded_cek ← decode std rec.encrypted_key
  cek_iv ← decode std rec.header.iv
  cek ← open_box decoded_cek cek_iv send_pub_key rec_prv_key
  decoded_cipher ← decode std msg.ciphertext
  mac ← decode std msg.tag
  iv ← decode std msg.iv
  decrypt_detached p.sodium decoded_cipher mac decoded_val iv cek

box_open_ignores_code :
    (s : Sodium) (opened : Text → Text → Text → Text → Text × ℕ)
    → ((c n k x : Text) → (opened c n k x).0 ≡ (s.crypto_box_open c n k x).0)
    → (c n k x : Text)
    → box_open (record s { crypto_box_open = opened }) c n k x ≡ box_open s c n k x
unfolding box_open
box_open_ignores_code s opened h c n k x =
    let (m, e, _, _) = modify_nonce_lem n in rw e (ap ok (h c m k x))

-- The code with which libsodium reports that a box does not open is not read: two libraries that
-- differ in the codes of crypto_box_open alone unpack every message alike.
pub unpack_ignores_codes :
    (p : Packing) (opened : Text → Text → Text → Text → Text × ℕ)
    → ((c n k x : Text) → (opened c n k x).0 ≡ (p.sodium.crypto_box_open c n k x).0)
    → (packed rec_pub rec_prv : Text)
    → unpack
        (record p { sodium = record p.sodium { crypto_box_open = opened } })
        packed
        rec_pub
        rec_prv
      ≡ unpack p packed rec_pub rec_prv
unfolding unpack unpack_by seal_box_open decrypt_detached
unpack_ignores_codes p opened h packed rec_pub rec_prv =
    ap (λ (f : Text → Text → Text → Text → Result Text). unpack_by f p packed rec_pub rec_prv)
      (fun_ext
        λ c. fun_ext λ n. fun_ext λ k. fun_ext λ x. box_open_ignores_code p.sodium opened h c n k x)
