-- ===== src/Didcomm/Examples.antt =====
-- The theorems of the connection protocol at concrete messages, with a stand-in for JSON.
use zero_comm.Prelude.{
  Text, text, List, [], ◌∷◌, ◌++◌, ◌≡◌, ◌≢◌, refl, arith, Result, ok, err, unmarshalling, Codec,
  RoundTrips, All, ap, ◌∙◌, subst,
}
use zero_comm.Prelude.Base64.{IsBytes}
use zero_comm.Samples.{seal, unseal, seal-IsBytes, seal-nonzero, fields, unfields, unfields-unseal}
use zero_comm.Crypto.Examples.{messages, messages-RoundTrips}
use zero_comm.Domain.{AuthCryptMsg, ConnReq, ConnRes, Invitation, DidDocument, Service, DocService}
use zero_comm.Didcomm.Did.{DidHash, create_did_doc, create_peer_did, validate_peer_did}
use zero_comm.Didcomm.Connection.{
  Exchange, create_conn_req, parse_conn_req, create_conn_res, parse_conn_res,
}
use zero_comm.Didcomm.Invitation.{create_inv, parse_inv}
use zero_comm.Didcomm.Trips.{
  parse_conn_req-create_conn_req, parse_conn_res-create_conn_res, parse_inv-create_inv,
  validate_peer_did-create_peer_did,
}

abbrev req_texts : ConnReq → List Text
req_texts r =
    r.id ∷ r.typ ∷ r.th_id ∷ r.p_th_id ∷ r.label ∷ r.goal_code ∷ r.goal ∷ r.did ∷ r.attach_id
    ∷ r.mime_type ∷ r.attach_base64 ∷ []

abbrev read_req : List Text → Result ConnReq
read_req (a ∷ b ∷ c ∷ d ∷ e ∷ f ∷ g ∷ h ∷ i ∷ j ∷ k ∷ []) = ok (record {
  id = a;
  typ = b;
  th_id = c;
  p_th_id = d;
  label = e;
  goal_code = f;
  goal = g;
  did = h;
  attach_id = i;
  mime_type = j;
  attach_base64 = k;
})
read_req _ = err unmarshalling

abbrev res_texts : ConnRes → List Text
res_texts r = r.id ∷ r.typ ∷ r.th_id ∷ r.did ∷ r.attach_id ∷ r.mime_type ∷ r.attach_base64 ∷ []

abbrev read_res : List Text → Result ConnRes
read_res (a ∷ b ∷ c ∷ d ∷ e ∷ f ∷ g ∷ []) = ok (record {
  id = a;
  typ = b;
  th_id = c;
  did = d;
  attach_id = e;
  mime_type = f;
  attach_base64 = g;
})
read_res _ = err unmarshalling

abbrev pub exchange : Exchange
exchange = record {
  docs = messages;
  reqs = record {
    marshal = λ r. ok (seal (fields (req_texts r)));
    unmarshal = λ t. read_req (unfields (unseal 0 t));
  };
  ress = record {
    marshal = λ r. ok (seal (fields (res_texts r)));
    unmarshal = λ t. read_res (unfields (unseal 0 t));
  };
}

pub reqs-RoundTrips : RoundTrips exchange.reqs
reqs-RoundTrips = record {
  trips = λ r. (seal (fields (req_texts r)), refl, ap read_req (unfields-unseal (req_texts r)));
}

pub ress-RoundTrips : RoundTrips exchange.ress
ress-RoundTrips = record {
  trips = λ r. (seal (fields (res_texts r)), refl, ap read_res (unfields-unseal (res_texts r)));
}

abbrev pub OkBytes : Result Text → Type 0
OkBytes (ok t) = IsBytes t × All (λ b. b ≢ 0) t
OkBytes _ = Unit

pub sealed-OkBytes : (m t : Text) → ok (seal m) ≡ ok t → IsBytes t × All (λ b. b ≢ 0) t
sealed-OkBytes m t e = subst OkBytes {x = ok (seal m)} {y = ok t} e (seal-IsBytes m, seal-nonzero m)

abbrev doc : AuthCryptMsg
doc = record { protected = text "p"; iv = text "i"; ciphertext = text "c"; tag = text "t" }

parse_conn_req-create_conn_req_example :
    (req : ConnReq) × (t : Text) × (b : Text) × (create_conn_req exchange
        (text "1")
        (text "2")
        (text "al")
        (text "0")
        (text "did")
        doc
      ≡ ok req)
    × (exchange.reqs.marshal req ≡ ok t)
    × (parse_conn_req exchange t
        ≡ ok (record {
          label = text "al";
          exch_th_id = text "1";
          peer_did = text "did";
          enc_doc_bytes = b;
        }))
    × (exchange.docs.unmarshal b ≡ ok doc)
    × (req.th_id ≡ text "1")
parse_conn_req-create_conn_req_example =
    parse_conn_req-create_conn_req exchange messages-RoundTrips
      (λ a t e. (sealed-OkBytes (fields (a.protected ∷ a.iv ∷ a.ciphertext ∷ a.tag ∷ [])) t e).0)
      (text "1") (text "2") (text "al") (text "0") (text "did") doc reqs-RoundTrips

parse_conn_res-create_conn_res_example :
    (res : ConnRes) × (t : Text) × (b : Text) × (create_conn_res exchange
        (text "1")
        (text "2")
        (text "0")
        (text "did")
        doc
      ≡ ok res)
    × (exchange.ress.marshal res ≡ ok t)
    × (parse_conn_res exchange t ≡ ok (text "0", b))
    × (exchange.docs.unmarshal b ≡ ok doc)
parse_conn_res-create_conn_res_example =
    parse_conn_res-create_conn_res exchange messages-RoundTrips
      (λ a t e. (sealed-OkBytes (fields (a.protected ∷ a.iv ∷ a.ciphertext ∷ a.tag ∷ [])) t e).0)
      (text "1") (text "2") (text "0") (text "did") doc ress-RoundTrips

abbrev pub hash : DidHash
hash = record { marshal = λ d. ok (text "doc"); sha256 = λ t. t; base58_encode = λ t. t }

abbrev pub no_doc : DidDocument
no_doc = record { context = []; id = []; service = [] }

validate_peer_did-create_peer_did_example : validate_peer_did (text "did:peer:1zdoc") ≡ ok tt
unfolding create_peer_did
validate_peer_did-create_peer_did_example =
    validate_peer_did-create_peer_did hash no_doc (text "did:peer:1zdoc") refl

abbrev pub pack_texts : List Text → Text
pack_texts ts = seal (fields ts)

abbrev pub unpack_texts : Text → List Text
unpack_texts t = unfields (unseal 0 t)

abbrev pub service_texts : List DocService → List Text
service_texts [] = []
service_texts (s ∷ ss) =
    s.id
    ∷ s.typ
    ∷ pack_texts s.recipient_keys
    ∷ pack_texts s.routing_keys
    ∷ s.service_endpoint
    ∷ pack_texts s.accept
    ∷ service_texts ss

abbrev pub read_services : List Text → List DocService
read_services (a ∷ b ∷ c ∷ d ∷ e ∷ f ∷ ts) =
    record {
      id = a;
      typ = b;
      recipient_keys = unpack_texts c;
      routing_keys = unpack_texts d;
      service_endpoint = e;
      accept = unpack_texts f;
    }
    ∷ read_services ts
read_services _ = []

pub read-services : (ss : List DocService) → read_services (service_texts ss) ≡ ss
read-services [] = refl
read-services (s ∷ ss) =
    rw
      (
        unfields-unseal s.recipient_keys,
        unfields-unseal s.routing_keys,
        unfields-unseal s.accept,
        read-services ss,
      )
      refl

abbrev inv_texts : Invitation → List Text
inv_texts i =
    i.id
    ∷ i.typ
    ∷ i.from
    ∷ i.label
    ∷ i.goal_code
    ∷ i.goal
    ∷ pack_texts i.accept
    ∷ service_texts i.services

abbrev read_inv : List Text → Result Invitation
read_inv (a ∷ b ∷ c ∷ d ∷ e ∷ f ∷ g ∷ ts) = ok (record {
  id = a;
  typ = b;
  from = c;
  label = d;
  goal_code = e;
  goal = f;
  accept = unpack_texts g;
  services = read_services ts;
})
read_inv _ = err unmarshalling

abbrev pub invitations : Codec Invitation
invitations = record {
  marshal = λ i. ok (pack_texts (inv_texts i));
  unmarshal = λ t. read_inv (unpack_texts t);
}

read-inv : (i : Invitation) → read_inv (inv_texts i) ≡ ok i
read-inv i = rw (unfields-unseal i.accept, read-services i.services) refl

invitations-RoundTrips : RoundTrips invitations
invitations-RoundTrips = record {
  trips = λ i.
      (pack_texts (inv_texts i), refl, ap read_inv (unfields-unseal (inv_texts i)) ∙ read-inv i);
}

abbrev exchange_service : Service
exchange_service = record {
  id = text "s";
  typ = text "did-exchange-service";
  endpoint = text "tcp";
  pub_key = text "key";
}

parse_inv-create_inv_example :
    (doc : DidDocument) × (enc : Text) × (inv : Invitation) × (create_did_doc
        (exchange_service ∷ [])
      ≡ ok doc)
    × (create_inv invitations (text "host") (text "1") (text "al") [] doc
        ≡ ok (text "host" ++ (text "?oob=" ++ enc)))
    × (parse_inv invitations enc ≡ ok (inv, text "tcp", text "key"))
    × (inv.label ≡ text "al")
    × (inv.id ≡ text "1")
parse_inv-create_inv_example =
    parse_inv-create_inv invitations (text "host") (text "1") (text "al") [] exchange_service
      invitations-RoundTrips (λ i t e. sealed-OkBytes (fields (inv_texts i)) t e)
      (omega arith, (omega arith, (omega arith, tt))) (omega arith)
