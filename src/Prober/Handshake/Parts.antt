-- ===== src/Prober/Handshake/Parts.antt =====
-- What the calls of a connection in prober/agent.go do to the stores of one agent.
use zero_comm.Prelude.{
  Text, [], ◌∷◌, some, ◌≡◌, refl, arith, ok, length, ◌≤◌, All, ◌==◌, eq_iff, eq_refl, Bool-cases,
  inl, inr,
}
use zero_comm.Prelude.Base64.{encode, std, IsBytes, decode-encode}
use zero_comm.Prelude.Dict.{Dict, lookup, insert, lookup-insert}
use zero_comm.Domain.{AuthCryptMsg, DidDocument, Peer, servc_message, servc_group_join}
use zero_comm.Crypto.Keys.{Keys, generate_keys, public_key, private_key, peer_with}
use zero_comm.Crypto.Packer.{Packing, unpack}
use zero_comm.Didcomm.Did.{create_did_doc, doc_services, create_peer_did}
use zero_comm.Didcomm.Trips.{doc_service-ok}
use zero_comm.Prober.Peers.{PeerStore, add_did, get_did, peer_by_exch_id}
use zero_comm.Prober.Agent.{World, Prober, peer_services, first_key}
use zero_comm.Prober.Connect.{Fresh, own_services, set_conn_prereqs}

-- The document of an agent's two services, and what a peer reads off it
abbrev pub doc_of : Fresh → Prober → Text → DidDocument
doc_of f p key = record {
  context = [];
  id = [];
  service =
      record {
        id = f.message_id;
        typ = servc_message;
        recipient_keys = encode std key ∷ [];
        routing_keys = [];
        service_endpoint = p.exch_endpoint;
        accept = [];
      }
      ∷ record {
        id = f.join_id;
        typ = servc_group_join;
        recipient_keys = encode std key ∷ [];
        routing_keys = [];
        service_endpoint = p.grp_join_endpoint;
        accept = [];
      }
      ∷ [];
}

pub create_did_doc-own :
    (f : Fresh) (p : Prober) (key : Text)
    → IsBytes key
    → length key ≤ 48
    → create_did_doc (own_services f p key) ≡ ok (doc_of f p key)
unfolding create_did_doc doc_services
create_did_doc-own f p key h k =
    rw
      (doc_service-ok
        (record {
          id = f.message_id;
          typ = servc_message;
          endpoint = p.exch_endpoint;
          pub_key = key;
        })
        h k)
      (rw
        (doc_service-ok
          (record {
            id = f.join_id;
            typ = servc_group_join;
            endpoint = p.grp_join_endpoint;
            pub_key = key;
          })
          h k)
        refl)

pub peer_services-own :
    (f : Fresh) (p : Prober) (key : Text)
    → IsBytes key
    → peer_services (doc_of f p key).service ≡ own_services f p key
unfolding peer_services first_key
peer_services-own f p key h = rw (decode-encode std key h) refl

-- The agent with the keys, the did and the document of a peer
abbrev pub prepared : Text → Keys → Text → DidDocument → Prober → Prober
prepared label ks did doc p = record p {
  ks = record p.ks { key_store = insert label ks p.ks.key_store };
  did_store = add_did label did doc p.did_store;
}

pub set_conn_prereqs_lem :
    (w : World) (f : Fresh) (label did : Text) (ks : Keys) (p : Prober)
    → f.keys ≡ ok ks
    → IsBytes ks.public
    → length ks.public ≤ 48
    → create_peer_did w.hash (doc_of f p ks.public) ≡ ok did
    → set_conn_prereqs w f label p
      ≡ (ok (ks.public, ks.private), prepared label ks did (doc_of f p ks.public) p)
unfolding set_conn_prereqs generate_keys public_key private_key
set_conn_prereqs_lem w f label did ks p drawn h k named =
    let found : lookup label (insert label ks p.ks.key_store) ≡ some ks =
      ground (arith, lookup-insert label label ks p.ks.key_store, eq_refl label) in
    rw drawn (rw found (rw (create_did_doc-own f p ks.public h k) (rw found (rw named refl))))

pub get_did-prepared :
    (label : Text) (ks : Keys) (did : Text) (doc : DidDocument) (p : Prober)
    → get_did label (prepared label ks did doc p).did_store ≡ ok (did, doc)
unfolding get_did add_did
get_did-prepared label ks did doc p = rw (lookup-insert label label did p.did_store.did_map) (
    rw (eq_refl label)
      (rw (lookup-insert label label doc p.did_store.did_doc_map) (rw (eq_refl label) refl)))

-- Two encodings of one message unpack alike.
pub unpack-same :
    (p : Packing) (a b key prv : Text) {msg : AuthCryptMsg}
    → p.messages.unmarshal a ≡ ok msg
    → p.messages.unmarshal b ≡ ok msg
    → unpack p a key prv ≡ unpack p b key prv
unfolding unpack
unpack-same p a b key prv ea eb = rw ea (rw eb refl)

-- A public key that no other peer has leads to its peer.
pub peer-insert :
    (key label : Text) (ks : Keys) (store : Dict Keys)
    → ks.public ≡ key
    → All (λ e. e.1.public ≡ key → e.0 ≡ label) store
    → peer_with key (insert label ks store) ≡ label
unfolding insert
peer-insert key label ks [] e h = rw e (rw (eq_refl key) refl)
peer-insert key label ks ((n, x) ∷ store) e (mine, h) = elim (Bool-cases (n == label)) [
  | inl same ↦ rw (same, insert) (rw e (rw (eq_refl key) ((eq_iff n label).0 same)))
  | inr other ↦
      rw (other, insert)
        (ground
          (arith, eq_iff x.public key, eq_iff n label, mine, peer-insert key label ks store e h))
]

pub peer_by_exch_id-insert :
    (id label : Text) (pr : Peer) (store : PeerStore)
    → pr.exchange_th_id ≡ id
    → All (λ e. e.1.exchange_th_id ≡ id → e.0 ≡ label) store
    → peer_by_exch_id id (insert label pr store) ≡ some (label, pr)
unfolding peer_by_exch_id insert
peer_by_exch_id-insert id label pr [] e h = rw e (rw (eq_refl id) refl)
peer_by_exch_id-insert id label pr ((n, x) ∷ store) e (mine, h) = elim (Bool-cases (n == label)) [
  | inl same ↦ rw (same, insert) (rw ((eq_iff n label).0 same) (rw e (rw (eq_refl id) refl)))
  | inr other ↦
      rw (other, insert)
        (ground (
          arith,
          eq_iff x.exchange_th_id id,
          eq_iff n label,
          mine,
          peer_by_exch_id-insert id label pr store e h,
        ))
]
