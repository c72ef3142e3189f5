-- ===== src/Prober/Handshake/Messages.antt =====
-- What the messages of a connection in prober/agent.go carry, and what each call leaves behind.
use zero_comm.Prelude.{
  ℕ, Text, text, false, List, [], ◌∷◌, ◌++◌, some, ◌≡◌, refl, sym, ◌∙◌, ap, ok, length, ◌≤◌,
  RoundTrips,
}
use zero_comm.Prelude.Base64.{IsBytes}
use zero_comm.Prelude.Dict.{lookup}
use zero_comm.Domain.{AuthCryptMsg, DidDocument, Invitation, Service, Peer, servc_message}
use zero_comm.Domain.MsgType.{conn_req, conn_res}
use zero_comm.Crypto.Keys.{Keys, inv_public_key, inv_private_key, public_key, private_key}
use zero_comm.Crypto.Packer.{pack}
use zero_comm.Crypto.Packer.Trip.{Opens, packed_parts}
use zero_comm.Didcomm.Did.{create_peer_did}
use zero_comm.Didcomm.Connection.{ParsedReq, parse_conn_req, parse_conn_res}
use zero_comm.Didcomm.Invitation.{parse_inv}
use zero_comm.Didcomm.Trips.{parse_conn_req-create_conn_req, parse_conn_res-create_conn_res}
use zero_comm.Prober.Peers.{add_peer, peer_by_exch_id}
use zero_comm.Prober.Agent.{World, Prober, Client, info_by_servc}
use zero_comm.Prober.Connect.{
  Fresh, own_services, get_peer_info, accept, process_conn_req, process_conn_res, await_peer,
  signal_to,
}
use zero_comm.Prober.Messaging.Delivery.{IsWorld}
use zero_comm.Prober.Handshake.Parts.{
  doc_of, peer_services-own, prepared, set_conn_prereqs_lem, get_did-prepared, unpack-same,
}

-- JSON reads what it wrote, also in the messages of a connection, and documents can be hashed.
pub record IsJson (w : World) : Type 0 where
  pub base : IsWorld w
  pub docs : RoundTrips w.docs
  pub reqs : RoundTrips w.exchange.reqs
  pub ress : RoundTrips w.exchange.ress
  pub same : w.exchange.docs ≡ w.packing.messages
  pub msg_bytes : (a : AuthCryptMsg) (t : Text) → w.exchange.docs.marshal a ≡ ok t → IsBytes t
  pub hashes : (d : DidDocument) → (did : Text) × (create_peer_did w.hash d ≡ ok did)

-- The keys and nonces that a call draws
pub record Draws (f : Fresh) (ks : Keys) : Type 0 where
  pub keys : f.keys ≡ ok ks
  pub public_bytes : IsBytes ks.public
  pub short : length ks.public ≤ 48
  pub cek_iv : IsBytes f.drawn.cek_iv
  pub iv : IsBytes f.drawn.iv
  pub cek : Text
  pub drew : f.drawn.cek ≡ ok cek

module _ (w : World) (j : IsJson w) where
  -- The document of an agent, packed for a key, is what the owner of the key reads the services off.
  sealed_doc :
      (f : Fresh) (p : Prober) (ks : Keys) (key prv : Text)
      → Draws f ks
      → Opens w.packing.sodium ks.public ks.private key prv
      → (byts : Text) × (msg : AuthCryptMsg) × (w.docs.marshal (doc_of f p ks.public) ≡ ok byts)
        × (pack w.packing f.drawn byts key ks.public ks.private ≡ ok msg)
        × ((b : Text)
            → w.exchange.docs.unmarshal b ≡ ok msg
            → (q : Prober) → get_peer_info w b key prv q ≡ (ok (own_services f p ks.public), q))
  unfolding get_peer_info
  sealed_doc f p ks key prv d opens =
      let (byts, written, read) = j.docs.trips (doc_of f p ks.public) in
      let (msg, packed, packs, _, unpacks, back, _, _, _, _, _) =
        packed_parts w.packing ks.public ks.private key prv opens f.drawn d.cek byts j.base.messages
          j.base.payloads j.base.payload_bytes d.cek_iv d.iv d.drew in
      (
        byts,
        msg,
        written,
        packs,
        λ b e q.
            let same : w.packing.messages.unmarshal b ≡ ok msg =
              ap (λ c. c.unmarshal b) (sym j.same) ∙ e in
            rw (unpack-same w.packing b packed key prv same back)
              (rw unpacks (rw read (rw (peer_services-own f p ks.public d.public_bytes) refl))),
      )

  -- The state of an agent that accepted an invitation
  abbrev pub requested : Fresh → Invitation → Text → Keys → Text → Text → Prober → Prober
  requested f iv ep ks did bytes p = record (prepared iv.label ks did (doc_of f p ks.public) p) {
    sent = (conn_req, bytes, ep) ∷ p.sent;
    peers =
        add_peer iv.label
          (record { active = false; did = iv.from; exchange_th_id = f.id; services = [] }) p.peers;
  }

  pub accept_lem :
      (f : Fresh) (client : Client) (enc ep inv_pub inv_prv : Text) (iv : Invitation) (ks : Keys)
      (p : Prober)
      → Draws f ks
      → parse_inv w.invitations enc ≡ ok (iv, ep, inv_pub)
      → Opens w.packing.sodium ks.public ks.private inv_pub inv_prv
      → ((t : ℕ) (c e : Text) → client t c e ≡ ok [])
      → (did : Text) × (bytes : Text) × (b : Text) × (accept w f client enc p
          ≡ (ok iv.label, requested f iv ep ks did bytes p))
        × (parse_conn_req w.exchange bytes
            ≡ ok (record { label = p.label; exch_th_id = f.id; peer_did = did; enc_doc_bytes = b }))
        × ((q : Prober)
            → get_peer_info w b inv_pub inv_prv q ≡ (ok (own_services f p ks.public), q))
  unfolding accept
  accept_lem f client enc ep inv_pub inv_prv iv ks p d parsed opens answers =
      let (did, named) = j.hashes (doc_of f p ks.public) in
      let (byts, msg, written, packs, reads) = sealed_doc f p ks inv_pub inv_prv d opens in
      let (req, bytes, b, creates, marshals, parses, back, thread) =
        parse_conn_req-create_conn_req w.exchange (rw j.same j.base.messages) j.msg_bytes f.id
          f.attach_id p.label iv.id did msg j.reqs in
      (
        did,
        bytes,
        b,
        rw parsed (
            rw (set_conn_prereqs_lem w f iv.label did ks p d.keys d.public_bytes d.short named) (
              rw (get_did-prepared iv.label ks did (doc_of f p ks.public) p) (
                rw written (
                  rw packs (
                    rw creates (rw marshals (rw (answers conn_req bytes ep) (rw thread refl)))))))),
        parses,
        reads b back,
      )

  -- The state of an inviter that answered a request
  abbrev pub answered :
      Fresh → ParsedReq → List Service → Text → Keys → Text → Text → Prober → Prober
  answered f req svcs ep ks did bytes p =
      record (prepared req.label ks did (doc_of f p ks.public) p) {
        sent = (conn_res, bytes, ep) ∷ p.sent;
        peers =
            add_peer req.label
              (record {
                active = false;
                did = req.peer_did;
                exchange_th_id = req.exch_th_id;
                services = svcs;
              })
              p.peers;
        out = (text "Connection established with " ++ req.label) ∷ p.out;
      }

  pub process_conn_req_lem :
      (f : Fresh) (client : Client) (content ep key prv inv_pub inv_prv : Text) (req : ParsedReq)
      (svcs : List Service) (ks : Keys) (p : Prober)
      → Draws f ks
      → parse_conn_req w.exchange content ≡ ok req
      → inv_public_key p.ks ≡ ok inv_pub
      → inv_private_key p.ks ≡ ok inv_prv
      → ((q : Prober) → get_peer_info w req.enc_doc_bytes inv_pub inv_prv q ≡ (ok svcs, q))
      → info_by_servc servc_message svcs ≡ ok (ep, key)
      → Opens w.packing.sodium ks.public ks.private key prv
      → ((t : ℕ) (c e : Text) → client t c e ≡ ok [])
      → (did : Text) × (bytes : Text) × (b : Text) × (process_conn_req w f client content p
          ≡ (ok tt, answered f req svcs ep ks did bytes p))
        × (parse_conn_res w.exchange bytes ≡ ok (req.exch_th_id, b))
        × ((q : Prober) → get_peer_info w b key prv q ≡ (ok (own_services f p ks.public), q))
  unfolding process_conn_req
  process_conn_req_lem f client content ep key prv inv_pub inv_prv req svcs ks p d parsed ip is info
        named_by opens answers =
      let (did, named) = j.hashes (doc_of f p ks.public) in
      let (byts, msg, written, packs, reads) = sealed_doc f p ks key prv d opens in
      let (res, bytes, b, creates, marshals, parses, back) =
        parse_conn_res-create_conn_res w.exchange (rw j.same j.base.messages) j.msg_bytes f.id
          f.attach_id req.exch_th_id did msg j.ress in
      (
        did,
        bytes,
        b,
        rw parsed (
            rw ip (
              rw is (
                rw (info p) (
                  rw named_by (
                    rw
                      (set_conn_prereqs_lem w f req.label did ks p d.keys d.public_bytes d.short
                        named)
                      (rw (get_did-prepared req.label ks did (doc_of f p ks.public) p) (
                        rw written (
                          rw packs (
                            rw creates (rw marshals (rw (answers conn_res bytes ep) refl))))))))))),
        parses,
        reads b back,
      )

  -- The state of an agent whose request was answered
  abbrev pub connected_by : Text → Peer → Text → List Service → Prober → Prober
  connected_by name pr id svcs p = record p {
    peers =
        add_peer name
          (record { active = false; did = pr.did; exchange_th_id = id; services = svcs }) p.peers;
    signals = signal_to (lookup name p.sync_cons) p.signals;
    out = (text "Connection established with " ++ name) ∷ p.out;
  }

  pub process_conn_res_lem :
      (content id b name pub_key prv_key : Text) (pr : Peer) (svcs : List Service) (p : Prober)
      → parse_conn_res w.exchange content ≡ ok (id, b)
      → peer_by_exch_id id p.peers ≡ some (name, pr)
      → public_key name p.ks ≡ ok pub_key
      → private_key name p.ks ≡ ok prv_key
      → ((q : Prober) → get_peer_info w b pub_key prv_key q ≡ (ok svcs, q))
      → process_conn_res w (λ k. p.peers) content p ≡ (ok tt, connected_by name pr id svcs p)
  unfolding process_conn_res await_peer
  process_conn_res_lem content id b name pub_key prv_key pr svcs p parsed found own_pub own_prv
        info =
      rw parsed (rw found (rw own_pub (rw own_prv (rw (info p) refl))))
