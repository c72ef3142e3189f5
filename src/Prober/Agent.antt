-- ===== src/Prober/Agent.antt =====
-- The state of a Prober of prober/agent.go, and its queries. The libraries are in `World`; what a
-- call draws at random or gets from the network is its argument; `sent` holds the messages handed to
-- the client, `out` the lines for the terminal and `signals` the channels of SyncAccept that got a
-- value, the last ones first.
use zero_comm.Prelude.{
  ℕ, Text, List, [], ◌∷◌, Option, none, some, Result, ok, err, panic, no_service, timed_out, Codec,
  ◌==◌, if◌then◌else◌,
}
use zero_comm.Prelude.Dict.{Dict}
use zero_comm.Prelude.Base64.{decode, std}
use zero_comm.Prelude.Method.{Method, modify}
use zero_comm.Domain.{Peer, Service, Invitation, DidDocument, DocService}
use zero_comm.Crypto.Keys.{KeyManager, new_key_manager}
use zero_comm.Crypto.Packer.{Packing}
use zero_comm.Didcomm.Did.{DidHash}
use zero_comm.Didcomm.Connection.{Exchange}
use zero_comm.Prober.Peers.{PeerStore, DidStore, init_did_store, peer_by_label, peer_by_exch_id}

pub record World : Type 0 where
  pub packing : Packing
  pub docs : Codec DidDocument
  pub exchange : Exchange
  pub invitations : Codec Invitation
  pub hash : DidHash
  pub base58_decode : Text → Text

pub record Prober : Type 0 where
  pub label : Text
  pub hostname : Text
  pub inv_endpoint : Text
  pub exch_endpoint : Text
  pub grp_join_endpoint : Text
  pub ks : KeyManager
  pub peers : PeerStore
  pub did_store : DidStore
  pub sync_cons : Dict Text
  pub sent : List (ℕ × Text × Text)
  pub out : List Text
  pub signals : List Text

-- NewProber, where all three endpoints are the endpoint of the configuration
abbrev pub new_prober : Text → Text → Text → Prober
new_prober label hostname inv_endpoint = record {
  label = label;
  hostname = hostname;
  inv_endpoint = inv_endpoint;
  exch_endpoint = inv_endpoint;
  grp_join_endpoint = inv_endpoint;
  ks = new_key_manager;
  peers = [];
  did_store = init_did_store;
  sync_cons = [];
  sent = [];
  out = [];
  signals = [];
}

abbrev pub Client : Type 0
Client = ℕ → Text → Text → Result Text

abbrev pub on_keys : {A : Type 0} → Method KeyManager A → Method Prober A
on_keys f p = ((f p.ks).0, record p { ks = (f p.ks).1 })

abbrev pub ask_keys : {A : Type 0} → (KeyManager → Result A) → Method Prober A
ask_keys f p = (f p.ks, p)

-- p.client.Send
abbrev pub post : Client → ℕ → Text → Text → Method Prober Text
post client typ content endpoint p =
    (client typ content endpoint, record p { sent = (typ, content, endpoint) ∷ p.sent })

abbrev pub print : Text → Method Prober (Unit {0})
print line = modify (λ p. record p { out = line ∷ p.out })

-- infoByServc
unfoldable pub info_by_servc : Text → List Service → Result (Text × Text)
info_by_servc filter [] = err no_service
info_by_servc filter (s ∷ svcs) =
    if s.typ == filter then ok (s.endpoint, s.pub_key) else info_by_servc filter svcs

-- One round of the inner loop of getPeerInfo: the first recipient key that can be decoded.
unfoldable pub first_key : List Text → Option Text
first_key [] = none
first_key (rk ∷ rks) = by_decode (decode std rk) (first_key rks)
  where
    by_decode : Result Text → Option Text → Option Text
    by_decode (ok k) others = some k
    by_decode r others = others

-- The services with a key that can be decoded.
unfoldable pub peer_services : List DocService → List Service
unfolding first_key
peer_services [] = []
peer_services (s ∷ ss) = with_key s (first_key s.recipient_keys) (peer_services ss)
  where
    with_key : DocService → Option Text → List Service → List Service
    with_key s none svcs = svcs
    with_key s (some k) svcs =
        record { id = s.id; typ = s.typ; endpoint = s.service_endpoint; pub_key = k } ∷ svcs

-- The method Peer
unfoldable pub peer_of : Text → Prober → Result Peer
unfolding peer_by_label
peer_of label p = peer_by_label label p.peers

unfoldable pub service_named : Text → List Service → Option Service
service_named name [] = none
service_named name (s ∷ svcs) = if s.typ == name then some s else service_named name svcs

abbrev with_type : Service → Result Service
with_type s = if s.typ == [] then err no_service else ok s

-- The method Service: the type of the service is read through a pointer, nil if none was found.
unfoldable pub service : Text → Text → Prober → Result Service
unfolding peer_of service_named
service name peer p = by_peer (peer_of peer p)
  where
    found : Option Service → Result Service
    found none = panic
    found (some s) = with_type s

    by_peer : Result Peer → Result Service
    by_peer (ok pr) = found (service_named name pr.services)
    by_peer (err e) = err e
    by_peer panic = panic

-- SyncService: the results of Service in the rounds before the ticker.
unfoldable pub sync_service : List (Result Service) → Result Service
sync_service [] = err timed_out
sync_service (ok s ∷ rs) = ok s
sync_service (err e ∷ rs) = sync_service rs
sync_service (panic ∷ rs) = panic

unfoldable pub valid_conn : Text → Prober → Option Peer
unfolding peer_by_exch_id
valid_conn exch_id p = elim (peer_by_exch_id exch_id p.peers) [ none ↦ none | some r ↦ some r.1 ]
