-- ===== src/Prober/Messaging/Delivery.antt =====
-- What SendMessage sends, ReadMessage reads.
use zero_comm.Prelude.{
  ℕ, Text, ◌∷◌, ◌≡◌, refl, Result, ok, err, panic, RoundTrips, eqb, Bool-cases, inl, inr,
}
use zero_comm.Prelude.Method.{proceed, ◌>>◌, pure}
use zero_comm.Prelude.Base64.{decode, std, IsBytes}
use zero_comm.Domain.{AuthCryptMsg, Payload, Peer, servc_message}
use zero_comm.Domain.MsgType.{data_msg}
use zero_comm.Crypto.Keys.{public_key, private_key, peer}
use zero_comm.Crypto.Packer.{Drawn, payload_for}
use zero_comm.Crypto.Packer.Trip.{Opens, packed_parts}
use zero_comm.Prober.Peers.{peer_by_label}
use zero_comm.Prober.Agent.{World, Prober, Client, info_by_servc}
use zero_comm.Prober.Recipient.{recipient_key, peer_by_msg}
use zero_comm.Prober.Messaging.{send_message, read_message, print_data}

-- The two ends of a connection: the sender `a` knows the recipient as `to`, with the key pair and
-- the endpoint that it uses for it; the recipient `b` knows the sender as `from`.
pub record Connected (a b : Prober) (to from : Text) : Type 0 where
  pub send_pub : Text
  pub send_prv : Text
  pub rec_pub : Text
  pub rec_prv : Text
  pub endpoint : Text
  pub known : Peer
  pub knows : peer_by_label to a.peers ≡ ok known
  pub serves : info_by_servc servc_message known.services ≡ ok (endpoint, rec_pub)
  pub own_pub : public_key to a.ks ≡ ok send_pub
  pub own_prv : private_key to a.ks ≡ ok send_prv
  pub names : peer rec_pub b.ks ≡ ok from
  pub opens_pub : public_key from b.ks ≡ ok rec_pub
  pub opens_prv : private_key from b.ks ≡ ok rec_prv

-- The documented behaviour of JSON and base58.
pub record IsWorld (w : World) : Type 0 where
  pub messages : RoundTrips w.packing.messages
  pub payloads : RoundTrips w.packing.payloads
  pub payload_bytes : (x : Payload) (t : Text) → w.packing.payloads.marshal x ≡ ok t → IsBytes t
  pub base58 : (t : Text) → w.base58_decode (w.packing.base58_encode t) ≡ t

module _ (w : World) (iw : IsWorld w) where
  recipient_key-packed :
      (msg : AuthCryptMsg) (packed val rec_pub cek_iv b key : Text)
      → w.packing.messages.unmarshal packed ≡ ok msg
      → decode std msg.protected ≡ ok val
      → w.packing.payloads.unmarshal val ≡ ok (payload_for w.packing rec_pub cek_iv b key)
      → recipient_key w packed ≡ ok rec_pub
  unfolding recipient_key
  recipient_key-packed msg packed val rec_pub cek_iv b key hm hv hp =
      rw hm (rw hv (rw hp (rw (iw.base58 rec_pub) refl)))

  by_recipient :
      (b : Prober) (packed : Text) {rec_pub from : Text}
      → recipient_key w packed ≡ ok rec_pub
      → peer rec_pub b.ks ≡ ok from
      → peer_by_msg w packed b ≡ ok from
  unfolding peer_by_msg
  by_recipient b packed e f = rw e (rw f refl)

  posted_sent :
      (mt : ℕ) (line : Text) (r : Result Text) (p : Prober)
      → (proceed r (λ _. print_data mt line) p).1.sent ≡ p.sent
  posted_sent mt line (ok t) p = elim (Bool-cases (eqb mt data_msg)) [
    | inl e ↦ rw e refl
    | inr e ↦ rw e refl
  ]
  posted_sent mt line (err e) p = refl
  posted_sent mt line panic p = refl

  shown :
      (mt : ℕ) (line : Text) (r : Text × Text) (p : Prober)
      → ((print_data mt line >> pure r) p).0 ≡ ok r
  shown mt line r p = elim (Bool-cases (eqb mt data_msg)) [ inl e ↦ rw e refl | inr e ↦ rw e refl ]

  -- Over a connection, SendMessage hands one message to the client, for the recipient's endpoint,
  -- which the recipient's ReadMessage reads as the text that was sent, from the sender. This holds
  -- for all texts, nonces and keys, if libsodium opens what it sealed for the two key pairs, and
  -- JSON and base58 read what they wrote.
  pub read_message-send_message :
      (a b : Prober) (to from content : Text) (mt : ℕ) (drawn : Drawn) (cek : Text)
      (client : Client) (c : Connected a b to from)
      → Opens w.packing.sodium c.send_pub c.send_prv c.rec_pub c.rec_prv
      → IsBytes drawn.cek_iv
      → IsBytes drawn.iv
      → drawn.cek ≡ ok cek
      → (bytes : Text) × ((send_message w drawn client mt to content a).1.sent
          ≡ (mt, bytes, c.endpoint) ∷ a.sent)
        × ((read_message w (record { typ = mt; payload = bytes }) b).0 ≡ ok (from, content))
  unfolding send_message read_message
  read_message-send_message a b to from content mt drawn cek client c opens bi bv hc =
      let (msg, packed, packs, marshals, unpacks, dm, val, dv, box, key, dp) =
        packed_parts w.packing c.send_pub c.send_prv c.rec_pub c.rec_prv opens drawn cek content
          iw.messages iw.payloads iw.payload_bytes bi bv hc in
      (
        packed,
        rw c.knows (
            rw c.own_pub (
              rw c.own_prv (
                rw c.serves
                  (rw packs (rw marshals (posted_sent mt _ (client mt packed c.endpoint) _)))))),
        rw
            (by_recipient b packed
              (recipient_key-packed msg packed val c.rec_pub drawn.cek_iv box key dm dv dp) c.names)
            (rw c.opens_pub (rw c.opens_prv (rw unpacks (shown mt _ (from, content) b)))),
      )
