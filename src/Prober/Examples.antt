-- ===== src/Prober/Examples.antt =====
-- Tests of the prober, and its theorems at concrete agents.
use zero_comm.Prelude.{
  ℕ, zero, suc, ◌≤◌, Text, text, false, [], ◌∷◌, none, some, ◌≡◌, ◌↔◌, refl, arith, ok, err, panic,
  no_peer, List, ◌++◌,
}
use zero_comm.Prelude.Dict.{lookup}
use zero_comm.Domain.{Peer, Service, servc_message}
use zero_comm.Domain.MsgType.{data_msg}
use zero_comm.Crypto.Keys.{public_key, private_key, peer}
use zero_comm.Crypto.Examples.{
  packing, opens, drawn, messages-RoundTrips, payloads-RoundTrips, payloads-IsBytes,
}
use zero_comm.Didcomm.Examples.{exchange, invitations, hash, no_doc}
use zero_comm.Prober.Peers.{PeerStore, peer_by_label, peer_by_exch_id}
use zero_comm.Prober.Agent.{
  World, Prober, Client, new_prober, info_by_servc, peer_of, service_named, service,
}
use zero_comm.Prober.Connect.{await_peer}
use zero_comm.Prober.Messaging.{send_message, read_message}
use zero_comm.Prober.Messaging.Delivery.{Connected, IsWorld, read_message-send_message}
use zero_comm.Prober.Services.{service_outcome, LacksService, await_peer-none}

abbrev pub world : World
world = record {
  packing = packing;
  docs = record { marshal = λ d. ok (text "doc"); unmarshal = λ t. ok no_doc };
  exchange = exchange;
  invitations = invitations;
  hash = hash;
  base58_decode = λ t. t;
}

pub world-IsWorld : IsWorld world
world-IsWorld = record {
  messages = messages-RoundTrips;
  payloads = payloads-RoundTrips;
  payload_bytes = payloads-IsBytes;
  base58 = λ t. refl;
}

abbrev bo_messages : Service
bo_messages = record {
  id = text "1";
  typ = servc_message;
  endpoint = text "tcp";
  pub_key = text "rp";
}

abbrev bo_peer : Peer
bo_peer = record {
  active = false;
  did = text "did";
  exchange_th_id = text "7";
  services = bo_messages ∷ [];
}

abbrev pub blank : Prober
blank = new_prober (text "al") (text "host") (text "in")

abbrev al : Prober
al = record blank {
  peers = (text "bo", bo_peer) ∷ [];
  ks = record blank.ks {
    key_store = (text "bo", record { public = text "sp"; private = text "ss" }) ∷ [];
  };
}

abbrev bo : Prober
bo = record blank {
  label = text "bo";
  ks = record blank.ks {
    key_store = (text "al", record { public = text "rp"; private = text "rs" }) ∷ [];
  };
}

al_to_bo : Connected al bo (text "bo") (text "al")
unfolding peer_by_label info_by_servc public_key private_key peer lookup
al_to_bo = record {
  send_pub = text "sp";
  send_prv = text "ss";
  rec_pub = text "rp";
  rec_prv = text "rs";
  endpoint = text "tcp";
  known = bo_peer;
  knows = refl;
  serves = refl;
  own_pub = refl;
  own_prv = refl;
  names = refl;
  opens_pub = refl;
  opens_prv = refl;
}

abbrev pub quiet : Client
quiet mt content endpoint = ok []

read_message-send_message_example :
    (bytes : Text) × ((send_message world drawn quiet data_msg (text "bo") (text "hi") al).1.sent
      ≡ (data_msg, bytes, text "tcp") ∷ [])
    × ((read_message world (record { typ = data_msg; payload = bytes }) bo).0
        ≡ ok (text "al", text "hi"))
unfolding al_to_bo
read_message-send_message_example =
    read_message-send_message world world-IsWorld al bo (text "bo") (text "al") (text "hi") data_msg
      drawn (text "key") quiet al_to_bo (opens (text "sp") (text "ss") (text "rp") (text "rs"))
      (omega arith, (omega arith, (omega arith, (omega arith, tt))))
      (omega arith, (omega arith, tt)) refl

service_outcome_example :
    (lookup (text "bo") al.peers ≡ none → service (text "x") (text "bo") al ≡ err no_peer)
    × ((pr : Peer) (front : List Service) (s : Service) (back : List Service)
        → lookup (text "bo") al.peers ≡ some pr
        → pr.services ≡ front ++ s ∷ back
        → LacksService (text "x") front
        → s.typ ≡ text "x"
        → service (text "x") (text "bo") al ≡ ok s)
    × ((pr : Peer)
        → lookup (text "bo") al.peers ≡ some pr
        → LacksService (text "x") pr.services
        → service (text "x") (text "bo") al ≡ panic)
service_outcome_example = service_outcome (text "x") (text "bo") al

-- The service that the peer has.
found_service : service servc_message (text "bo") al ≡ ok bo_messages
unfolding lookup
found_service =
    (service_outcome servc_message (text "bo") al).1 bo_peer [] bo_messages [] refl refl tt refl

-- A peer without the service makes the agent panic.
missing_service : service (text "x") (text "bo") al ≡ panic
unfolding service peer_of service_named lookup
missing_service = refl

-- The peer is added while the response waits.
abbrev seen : ℕ → PeerStore
seen zero = []
seen (suc n) = al.peers

await_peer-none_example :
    (await_peer 2 seen (text "8") ≡ none)
    ↔ ((k : ℕ) → k ≤ 2 → peer_by_exch_id (text "8") (seen k) ≡ none)
await_peer-none_example = await_peer-none 2 seen (text "8")
