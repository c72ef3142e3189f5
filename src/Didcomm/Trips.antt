-- ===== src/Didcomm/Trips.antt =====
-- What one agent writes in the connection protocol, the other reads.
use zero_comm.Prelude.{
  ◌-◌, ◌≤◌, Text, text, [], ◌∷◌, ◌++◌, ◌≡◌, ◌≢◌, refl, arith, ok, >>=-eq-ok, subst, Codec,
  RoundTrips, length, All,
}
use zero_comm.Prelude.Buffer.{trim-padded, encode_into-ok}
use zero_comm.Prelude.Base64.{
  encode, std, url, IsBytes, decode-encode, length-encode, encode_nonzero,
}
use zero_comm.Domain.{
  AuthCryptMsg, ConnReq, ConnRes, Invitation, DidDocument, Service, DocService, oob_invitation_v1,
  did_exchange_req_v1, did_exchange_res_v1,
}
use zero_comm.Didcomm.Did.{
  DidHash, doc_service, doc_services, create_did_doc, create_peer_did, validate_peer_did,
  peer_did_prefix,
}
use zero_comm.Didcomm.Connection.{
  Exchange, create_conn_req, parse_conn_req, create_conn_res, parse_conn_res,
}
use zero_comm.Didcomm.Invitation.{create_inv, parse_inv}

module _ (x : Exchange) (docs : RoundTrips x.docs)
    (doc_bytes : (a : AuthCryptMsg) (t : Text) → x.docs.marshal a ≡ ok t → IsBytes t) where
  -- A connection request that one agent creates and sends as JSON, the other parses into the label,
  -- the did and the encrypted document that it was created from; its own id is the exchange id. JSON
  -- reads what it wrote.
  pub parse_conn_req-create_conn_req :
      (id attach label pthid did : Text) (doc : AuthCryptMsg)
      → RoundTrips x.reqs
      → (req : ConnReq) × (t : Text) × (b : Text) × (create_conn_req x id attach label pthid did doc
          ≡ ok req)
        × (x.reqs.marshal req ≡ ok t)
        × (parse_conn_req x t
            ≡ ok (record { label = label; exch_th_id = id; peer_did = did; enc_doc_bytes = b }))
        × (x.docs.unmarshal b ≡ ok doc)
        × (req.th_id ≡ id)
  unfolding create_conn_req parse_conn_req
  parse_conn_req-create_conn_req id attach label pthid did doc reqs =
      let (b, eb, db) = docs.trips doc in
      let req : ConnReq = record {
        id = id;
        typ = did_exchange_req_v1;
        th_id = id;
        p_th_id = pthid;
        label = label;
        goal_code = [];
        goal = text "connection establishment";
        did = did;
        attach_id = attach;
        mime_type = text "application/json";
        attach_base64 = encode std b;
      } in
      let (t, et, dt) = reqs.trips req in
      (
        req,
        t,
        b,
        rw eb refl,
        et,
        rw dt (rw (decode-encode std b (doc_bytes doc b eb)) refl),
        db,
        refl,
      )

  -- The same of a connection response, whose exchange id is the one that it answers.
  pub parse_conn_res-create_conn_res :
      (id attach pth_id did : Text) (doc : AuthCryptMsg)
      → RoundTrips x.ress
      → (res : ConnRes) × (t : Text) × (b : Text) × (create_conn_res x id attach pth_id did doc
          ≡ ok res)
        × (x.ress.marshal res ≡ ok t)
        × (parse_conn_res x t ≡ ok (pth_id, b))
        × (x.docs.unmarshal b ≡ ok doc)
  unfolding create_conn_res parse_conn_res
  parse_conn_res-create_conn_res id attach pth_id did doc ress =
      let (b, eb, db) = docs.trips doc in
      let res : ConnRes = record {
        id = id;
        typ = did_exchange_res_v1;
        th_id = pth_id;
        did = did;
        attach_id = attach;
        mime_type = text "application/json";
        attach_base64 = encode std b;
      } in
      let (t, et, dt) = ress.trips res in
      (res, t, b, rw eb refl, et, rw dt (rw (decode-encode std b (doc_bytes doc b eb)) refl), db)

-- The document of a service with a key of at most 48 bytes has the key in base64.
pub doc_service-ok :
    (svc : Service)
    → IsBytes svc.pub_key
    → length svc.pub_key ≤ 48
    → doc_service svc
      ≡ ok (record {
        id = svc.id;
        typ = svc.typ;
        recipient_keys = encode std svc.pub_key ∷ [];
        routing_keys = [];
        service_endpoint = svc.endpoint;
        accept = [];
      })
unfolding doc_service
doc_service-ok svc h k =
    rw (encode_into-ok 64 (encode std svc.pub_key) (omega (arith, length-encode std svc.pub_key)))
      (rw (trim-padded (encode std svc.pub_key) _ (encode_nonzero std svc.pub_key h)) refl)

-- An invitation that is made for the key and the endpoint of an agent is a URL, whose part behind
-- `?oob=` the invited agent parses into the invitation, this endpoint and this key. The key has at
-- most 48 bytes, and JSON has no byte 0 and reads what it wrote.
pub parse_inv-create_inv :
    (c : Codec Invitation) (inv_endpoint id label did : Text) (svc : Service)
    → RoundTrips c
    → ((a : Invitation) (t : Text) → c.marshal a ≡ ok t → IsBytes t × All (λ b. b ≢ 0) t)
    → IsBytes svc.pub_key
    → length svc.pub_key ≤ 48
    → (doc : DidDocument) × (enc : Text) × (inv : Invitation) × (create_did_doc (svc ∷ []) ≡ ok doc)
      × (create_inv c inv_endpoint id label did doc ≡ ok (inv_endpoint ++ (text "?oob=" ++ enc)))
      × (parse_inv c enc ≡ ok (inv, svc.endpoint, svc.pub_key))
      × (inv.label ≡ label)
      × (inv.id ≡ id)
unfolding create_did_doc doc_services create_inv parse_inv
parse_inv-create_inv c inv_endpoint id label did svc trips json h k =
    let service : DocService = record {
      id = svc.id;
      typ = svc.typ;
      recipient_keys = encode std svc.pub_key ∷ [];
      routing_keys = [];
      service_endpoint = svc.endpoint;
      accept = [];
    } in
    let inv : Invitation = record {
      id = id;
      typ = oob_invitation_v1;
      from = did;
      label = label;
      goal_code = [];
      goal = [];
      accept = [];
      services = service ∷ [];
    } in
    let (t, et, dt) = trips.trips inv in
    let (bytes, nonzero) = json inv t et in
    (
      record { context = []; id = []; service = service ∷ [] },
      encode url t,
      inv,
      rw (doc_service-ok svc h k) refl,
      rw et refl,
      rw (decode-encode url t bytes) (
          rw (trim-padded t (length (encode url t) - length t) nonzero)
            (rw dt (rw (decode-encode std svc.pub_key h) refl))),
      refl,
      refl,
    )

-- Every did that the program creates, it accepts as a valid peer did.
pub validate_peer_did-create_peer_did :
    (d : DidHash) (doc : DidDocument) (did : Text)
    → create_peer_did d doc ≡ ok did
    → validate_peer_did did ≡ ok tt
unfolding create_peer_did validate_peer_did
validate_peer_did-create_peer_did d doc did e =
    let (byts, _, made) = >>=-eq-ok (d.marshal doc) _ e in
    subst (λ t. validate_peer_did t ≡ ok tt)
      {x = peer_did_prefix ++ d.base58_encode (d.sha256 byts)} {y = did} (cc made)
      (accepted (d.base58_encode (d.sha256 byts)))
  where
    accepted : (t : Text) → validate_peer_did (peer_did_prefix ++ t) ≡ ok tt
    accepted t = ground arith
