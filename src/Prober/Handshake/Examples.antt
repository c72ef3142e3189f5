-- ===== src/Prober/Handshake/Examples.antt =====
-- A connection between two concrete agents.
use zero_comm.Prelude.{
  ℕ, Text, text, List, [], ◌∷◌, ◌≡◌, refl, ap, ◌∙◌, arith, Result, ok, err, unmarshalling, Codec,
  RoundTrips, ne_of_test, some, ◌<◌,
}
use zero_comm.Prelude.Base64.{decode}
use zero_comm.Samples.{fields, unfields-unseal}
use zero_comm.Domain.{DidDocument, Invitation}
use zero_comm.Domain.MsgType.{conn_req, conn_res}
use zero_comm.Crypto.Keys.{inv_public_key, inv_private_key}
use zero_comm.Crypto.Examples.{opens, drawn}
use zero_comm.Didcomm.Did.{create_peer_did}
use zero_comm.Didcomm.Examples.{
  pack_texts, unpack_texts, service_texts, read_services, read-services, reqs-RoundTrips,
  ress-RoundTrips, sealed-OkBytes,
}
use zero_comm.Didcomm.Invitation.{parse_inv}
use zero_comm.Prober.Agent.{World, Prober}
use zero_comm.Prober.Connect.{Fresh, accept, process_conn_req, process_conn_res}
use zero_comm.Prober.Messaging.Delivery.{Connected}
use zero_comm.Prober.Examples.{world, world-IsWorld, quiet, blank}
use zero_comm.Prober.Handshake.{handshake}
use zero_comm.Prober.Handshake.Messages.{IsJson, Draws}

abbrev doc_texts : DidDocument → List Text
doc_texts d = pack_texts d.context ∷ d.id ∷ service_texts d.service

abbrev read_doc : List Text → Result DidDocument
read_doc (c ∷ i ∷ ts) = ok (record { context = unpack_texts c; id = i; service = read_services ts })
read_doc _ = err unmarshalling

read-doc : (d : DidDocument) → read_doc (doc_texts d) ≡ ok d
read-doc d = rw (unfields-unseal d.context, read-services d.service) refl

abbrev docs : Codec DidDocument
docs = record {
  marshal = λ d. ok (pack_texts (doc_texts d));
  unmarshal = λ t. read_doc (unpack_texts t);
}

docs-RoundTrips : RoundTrips docs
docs-RoundTrips = record {
  trips = λ d.
      (pack_texts (doc_texts d), refl, ap read_doc (unfields-unseal (doc_texts d)) ∙ read-doc d);
}

abbrev invitation : Invitation
invitation = record {
  id = text "1";
  typ = [];
  from = [];
  label = text "bo";
  goal_code = [];
  goal = [];
  accept = [];
  services =
      record {
        id = [];
        typ = [];
        recipient_keys = text "aXA=" ∷ [];
        routing_keys = [];
        service_endpoint = text "tcp";
        accept = [];
      }
      ∷ [];
}

abbrev open_world : World
open_world = record world {
  docs = docs;
  invitations = record { marshal = λ i. err unmarshalling; unmarshal = λ t. ok invitation };
}

open_world-IsJson : IsJson open_world
unfolding create_peer_did
open_world-IsJson = record {
  base = record {
    messages = world-IsWorld.messages;
    payloads = world-IsWorld.payloads;
    payload_bytes = world-IsWorld.payload_bytes;
    base58 = world-IsWorld.base58;
  };
  docs = docs-RoundTrips;
  reqs = reqs-RoundTrips;
  ress = ress-RoundTrips;
  same = refl;
  msg_bytes =
      λ a t e. (sealed-OkBytes (fields (a.protected ∷ a.iv ∷ a.ciphertext ∷ a.tag ∷ [])) t e).0;
  hashes = λ d. (text "did:peer:1zdoc", refl);
}

abbrev fresh : Text → Text → Fresh
fresh public id = record {
  keys = ok (record { public = public; private = text "s" });
  message_id = text "m";
  join_id = text "j";
  drawn = drawn;
  id = id;
  attach_id = text "a";
}

draws :
    (c : ℕ) (id : Text)
    → c < 256
    → Draws (fresh (107 ∷ c ∷ []) id) (record { public = 107 ∷ c ∷ []; private = text "s" })
draws c id h = record {
  keys = refl;
  public_bytes = (omega arith, (h, tt));
  short = omega arith;
  cek_iv = (omega arith, (omega arith, (omega arith, (omega arith, tt))));
  iv = (omega arith, (omega arith, tt));
  cek = text "key";
  drew = refl;
}

abbrev asker : Prober
asker = record blank { label = text "al" }

abbrev host : Prober
host = record blank {
  label = text "bo";
  ks = record blank.ks { inv_pub_key = some (text "ip"); inv_prv_key = some (text "is") };
}

handshake_example :
    (asking : Prober) × (inviter : Prober) × (done : Prober) × (request : Text) × (response : Text)
    × (accept open_world (fresh (text "ka") (text "7")) quiet [] asker ≡ (ok (text "bo"), asking))
    × (asking.sent ≡ (conn_req, request, text "tcp") ∷ [])
    × (process_conn_req open_world (fresh (text "kb") (text "8")) quiet request host
        ≡ (ok tt, inviter))
    × (inviter.sent ≡ (conn_res, response, text "in") ∷ [])
    × (process_conn_res open_world (λ k. asking.peers) response asking ≡ (ok tt, done))
    × Connected done inviter (text "bo") (text "al")
    × Connected inviter done (text "al") (text "bo")
unfolding parse_inv decode inv_public_key inv_private_key
handshake_example =
    handshake open_world open_world-IsJson (fresh (text "ka") (text "7"))
      (fresh (text "kb") (text "8")) quiet quiet [] (text "tcp") (text "ip") (text "is") invitation
      (record { public = text "ka"; private = text "s" })
      (record { public = text "kb"; private = text "s" }) asker host
      (draws 97 (text "7") (omega arith)) (draws 98 (text "8") (omega arith)) refl refl refl
      (opens _ _ _ _) (opens _ _ _ _) (λ t c e. refl) (λ t c e. refl) tt tt tt
      (ne_of_test (text "bo") [] refl) (ne_of_test (text "al") [] refl)
