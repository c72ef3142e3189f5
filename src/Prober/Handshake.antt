-- ===== src/Prober/Handshake.antt =====
-- A connection in prober/agent.go: Accept of an invitation, processConnReq at the inviter with the
-- request, and processConnRes at the other with the response.
pub mod Parts
pub mod Messages
pub mod Examples
use zero_comm.Prelude.{
  ℕ, Text, text, false, List, [], ◌∷◌, some, ◌≡◌, ◌≢◌, refl, arith, Result, ok, All, eq_refl, ◌==◌,
  if◌then◌else◌,
}
use zero_comm.Prelude.Dict.{Dict, lookup, insert, lookup-insert}
use zero_comm.Domain.{Invitation, Peer, Service, servc_message}
use zero_comm.Domain.MsgType.{conn_req, conn_res}
use zero_comm.Crypto.Keys.{
  Keys, public_key, private_key, peer, peer_with, is_named, inv_public_key, inv_private_key,
}
use zero_comm.Crypto.Packer.Trip.{Opens}
use zero_comm.Didcomm.Invitation.{parse_inv}
use zero_comm.Prober.Peers.{add_peer, peer_by_label}
use zero_comm.Prober.Agent.{World, Prober, Client, info_by_servc}
use zero_comm.Prober.Connect.{Fresh, own_services, accept, process_conn_req, process_conn_res}
use zero_comm.Prober.Messaging.Delivery.{Connected}
use zero_comm.Prober.Handshake.Parts.{doc_of, peer-insert, peer_by_exch_id-insert}
use zero_comm.Prober.Handshake.Messages.{
  IsJson, Draws, requested, answered, connected_by, accept_lem, process_conn_req_lem,
  process_conn_res_lem,
}

-- No other peer of an agent has the public key.
abbrev pub OnlyOf : Text → Text → Dict Keys → Type 0
OnlyOf label key = All (λ e. e.1.public ≡ key → e.0 ≡ label)

keys-insert :
    (label : Text) (ks : Keys) (p : Prober) (store : Dict Keys)
    → p.ks.key_store ≡ insert label ks store
    → (public_key label p.ks ≡ ok ks.public) × (private_key label p.ks ≡ ok ks.private)
unfolding public_key private_key
keys-insert label ks p store e =
    let found : lookup label p.ks.key_store ≡ some ks =
      rw e (ground (arith, lookup-insert label label ks store, eq_refl label)) in
    (rw found refl, rw found refl)

named-insert :
    (label : Text) (ks : Keys) (p : Prober) (store : Dict Keys)
    → p.ks.key_store ≡ insert label ks store
    → OnlyOf label ks.public store
    → label ≢ []
    → peer ks.public p.ks ≡ ok label
unfolding peer
named-insert label ks p store e only named =
    rw e (rw (peer-insert ks.public label ks store refl only) (ground (arith, named)))

-- Two agents whose calls made key pairs for one another, and that know one another's services, are
-- connected.
connected_ends :
    (a b : Prober) (to from : Text) (ka kb : Keys) (sa sb : Dict Keys) (f : Fresh) (owner : Prober)
    (known : Peer)
    → a.ks.key_store ≡ insert to ka sa
    → b.ks.key_store ≡ insert from kb sb
    → OnlyOf from kb.public sb
    → from ≢ []
    → peer_by_label to a.peers ≡ ok known
    → known.services ≡ own_services f owner kb.public
    → Connected a b to from
unfolding info_by_servc
connected_ends a b to from ka kb sa sb f owner known ea eb only named knows serves =
    let mine = keys-insert to ka a sa ea in
    let theirs = keys-insert from kb b sb eb in
    record {
      send_pub = ka.public;
      send_prv = ka.private;
      rec_pub = kb.public;
      rec_prv = kb.private;
      endpoint = owner.exch_endpoint;
      known = known;
      knows = knows;
      serves = rw serves refl;
      own_pub = mine.0;
      own_prv = mine.1;
      names = named-insert from kb b sb eb only named;
      opens_pub = theirs.0;
      opens_prv = theirs.1;
    }

peer_by_label-add :
    (label : Text) (pr : Peer) (p : Prober) (store : Dict Peer)
    → p.peers ≡ add_peer label pr store
    → peer_by_label label p.peers ≡ ok pr
unfolding peer_by_label
peer_by_label-add label pr p store e =
    rw e (rw (lookup-insert label label pr store) (rw (eq_refl label) refl))

module _ (w : World) (j : IsJson w) (fa fb : Fresh) (ca cb : Client) (enc ep inv_pub inv_prv : Text)
    (iv : Invitation) (ka kb : Keys) (a b : Prober) where
  -- An agent that accepts an invitation posts a request to the endpoint of the invitation; the inviter,
  -- handling this request, posts a response to the endpoint of the agent; and when the agent has handled
  -- this response, the two are connected in both directions: each knows the other's endpoint and public
  -- key, and holds the private key to its own. No call returns an error. The invitation carries the
  -- inviter's key for invitations, the drawn keys are new to both agents and have at most 48 bytes, the
  -- exchange id is new, the labels are not empty, libsodium opens what it sealed for these keys, and JSON
  -- reads what it wrote.
  pub handshake :
      Draws fa ka
      → Draws fb kb
      → parse_inv w.invitations enc ≡ ok (iv, ep, inv_pub)
      → inv_public_key b.ks ≡ ok inv_pub
      → inv_private_key b.ks ≡ ok inv_prv
      → Opens w.packing.sodium ka.public ka.private inv_pub inv_prv
      → Opens w.packing.sodium kb.public kb.private ka.public ka.private
      → ((t : ℕ) (c e : Text) → ca t c e ≡ ok [])
      → ((t : ℕ) (c e : Text) → cb t c e ≡ ok [])
      → OnlyOf iv.label ka.public a.ks.key_store
      → OnlyOf a.label kb.public b.ks.key_store
      → All (λ e. e.1.exchange_th_id ≡ fa.id → e.0 ≡ iv.label) a.peers
      → iv.label ≢ []
      → a.label ≢ []
      → (asking : Prober) × (inviter : Prober) × (done : Prober) × (request : Text)
        × (response : Text) × (accept w fa ca enc a ≡ (ok iv.label, asking))
        × (asking.sent ≡ (conn_req, request, ep) ∷ a.sent)
        × (process_conn_req w fb cb request b ≡ (ok tt, inviter))
        × (inviter.sent ≡ (conn_res, response, a.exch_endpoint) ∷ b.sent)
        × (process_conn_res w (λ k. asking.peers) response asking ≡ (ok tt, done))
        × Connected done inviter iv.label a.label
        × Connected inviter done a.label iv.label
  unfolding info_by_servc
  handshake da db parsed ip is open_inv open_res answers_a answers_b only_a only_b new_id named_b
        named_a =
      let (did, request, doc, accepts, reads, info) =
        accept_lem w j fa ca enc ep inv_pub inv_prv iv ka a da parsed open_inv answers_a in
      let asking : Prober = requested w j fa iv ep ka did request a in
      let (bid, response, bdoc, processes, reads_res, info_res) =
        process_conn_req_lem w j fb cb request a.exch_endpoint ka.public ka.private inv_pub inv_prv
          _ (own_services fa a ka.public) kb b db reads ip is info refl open_res answers_b in
      let inviter : Prober =
        answered w j fb
          (record { label = a.label; exch_th_id = fa.id; peer_did = did; enc_doc_bytes = doc })
          (own_services fa a ka.public) a.exch_endpoint kb bid response b in
      let pr : Peer = record {
        active = false;
        did = iv.from;
        exchange_th_id = fa.id;
        services = [];
      } in
      let own = keys-insert iv.label ka asking a.ks.key_store refl in
      let done : Prober = connected_by w j iv.label pr fa.id (own_services fb b kb.public) asking in
      (
        asking,
        inviter,
        done,
        request,
        response,
        accepts,
        refl,
        processes,
        refl,
        process_conn_res_lem w j response fa.id bdoc iv.label ka.public ka.private pr
            (own_services fb b kb.public) asking reads_res
            (peer_by_exch_id-insert fa.id iv.label pr a.peers refl new_id) own.0 own.1 info_res,
        connected_ends done inviter iv.label a.label ka kb a.ks.key_store b.ks.key_store fb b _ refl
            refl only_b named_a (peer_by_label-add iv.label _ done asking.peers refl) refl,
        connected_ends inviter done a.label iv.label kb ka b.ks.key_store a.ks.key_store fa a _ refl
            refl only_a named_b (peer_by_label-add a.label _ inviter b.peers refl) refl,
      )
