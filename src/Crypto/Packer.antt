-- ===== src/Crypto/Packer.antt =====
-- crypto/packer.go. What the random sources give is an argument; base58 and libsodium are
-- parameters.
pub mod Trip
use zero_comm.Prelude.{
  Text, text, List, [], ◌∷◌, Result, ok, err, panic, no_recipient, ◌>>=◌, Codec,
}
use zero_comm.Prelude.Base64.{encode, decode, std}
use zero_comm.Domain.{AuthCryptMsg, Payload, Recipient, Header}
use zero_comm.Crypto.Cipher.{
  Sodium, box, box_open, seal_box, seal_box_open, encrypt_detached, decrypt_detached,
}

pub record Packing : Type 0 where
  pub sodium : Sodium
  pub messages : Codec AuthCryptMsg
  pub payloads : Codec Payload
  pub base58_encode : Text → Text

-- The two nonces are decimal numbers; the key is 64 bytes of crypto/rand, which may fail.
pub record Drawn : Type 0 where
  pub cek_iv : Text
  pub cek : Result Text
  pub iv : Text

abbrev pub payload_for : Packing → Text → Text → Text → Text → Payload
payload_for p rec_pub_key cek_iv encrypted_cek encrypted_send_key = record {
  enc = text "xchacha20poly1305_ietf";
  typ = text "JWM/1.0";
  alg = text "Authcrypt";
  recipients =
      record {
        encrypted_key = encode std encrypted_cek;
        header = record {
          kid = p.base58_encode rec_pub_key;
          iv = encode std cek_iv;
          sender = encode std encrypted_send_key;
        };
      }
      ∷ [];
}

unfoldable pub pack : Packing → Drawn → Text → Text → Text → Text → Result AuthCryptMsg
pack p drawn input rec_pub_key send_pub_key send_prv_key = do
  cek ← drawn.cek
  encrypted_cek ← box p.sodium cek drawn.cek_iv rec_pub_key send_prv_key
  encrypted_send_key ← seal_box p.sodium send_pub_key rec_pub_key
  enc_payload ←
      p.payloads.marshal (payload_for p rec_pub_key drawn.cek_iv encrypted_cek encrypted_send_key)
  sealed ← encrypt_detached p.sodium input enc_payload drawn.iv cek
  ok (record {
    protected = encode std enc_payload;
    iv = encode std drawn.iv;
    ciphertext = encode std sealed.0;
    tag = encode std sealed.1;
  })

abbrev pub first_recipient : List Recipient → Result Recipient
first_recipient [] = err no_recipient
first_recipient (r ∷ rs) = ok r

unfoldable pub unpack : Packing → Text → Text → Text → Result Text
unpack p packed rec_pub_key rec_prv_key = do
  msg ← p.messages.unmarshal packed
  decoded_val ← decode std msg.protected
  payload ← p.payloads.unmarshal decoded_val
  rec ← first_recipient payload.recipients
  decoded_send_key ← decode std rec.header.sender
  send_pub_key ← seal_box_open p.sodium decoded_send_key rec_pub_key rec_prv_key
  decoded_cek ← decode std rec.encrypted_key
  cek_iv ← decode std rec.header.iv
  cek ← box_open p.sodium decoded_cek cek_iv send_pub_key rec_prv_key
  decoded_cipher ← decode std msg.ciphertext
  mac ← decode std msg.tag
  iv ← decode std msg.iv
  decrypt_detached p.sodium decoded_cipher mac decoded_val iv cek
