-- ===== src/Prober/Connect.antt =====
-- Invite, Accept and the handlers of connection messages of prober/agent.go.
use zero_comm.Prelude.{
  ℕ, zero, suc, Text, text, false, List, [], ◌∷◌, ◌++◌, Option, none, some, Result, ok, err,
  no_service, no_peer,
}
use zero_comm.Prelude.Dict.{lookup, insert}
use zero_comm.Prelude.Method.{Method, modify, lift, ◌>>=◌, ◌>>◌, pure}
use zero_comm.Domain.{
  Peer, Service, DocService, servc_did_exchange, servc_message, servc_group_join, retry_count,
}
use zero_comm.Domain.MsgType.{conn_req, conn_res}
use zero_comm.Crypto.Keys.{
  Keys, generate_keys, generate_inv_keys, public_key, private_key, inv_public_key, inv_private_key,
}
use zero_comm.Crypto.Packer.{Drawn, pack, unpack}
use zero_comm.Didcomm.Did.{create_did_doc, create_peer_did}
use zero_comm.Didcomm.Connection.{create_conn_req, parse_conn_req, create_conn_res, parse_conn_res}
use zero_comm.Didcomm.Invitation.{create_inv, parse_inv}
use zero_comm.Prober.Peers.{PeerStore, add_peer, peer_by_exch_id, add_did, get_did}
use zero_comm.Prober.Agent.{
  World, Prober, Client, on_keys, ask_keys, post, print, info_by_servc, peer_services,
}

-- What the connection of a peer draws: its key pair, and the ids of the two services.
pub record Fresh : Type 0 where
  pub keys : Result Keys
  pub message_id : Text
  pub join_id : Text
  pub drawn : Drawn
  pub id : Text
  pub attach_id : Text

abbrev pub or_next : {A : Type 0} → Option A → Option A → Option A
or_next none later = later
or_next (some a) later = some a

abbrev pub with_store : PeerStore → Option (Text × Peer) → Option (Text × Peer × PeerStore)
with_store store none = none
with_store store (some r) = some (r.0, r.1, store)

-- The attempts at the label `retry`: a first one, and `n` more. The argument gives the store as it
-- is at each of them, since Accept may add the peer meanwhile.
unfoldable pub await_peer : ℕ → (ℕ → PeerStore) → Text → Option (Text × Peer × PeerStore)
unfolding peer_by_exch_id
await_peer zero seen exch_id = with_store (seen 0) (peer_by_exch_id exch_id (seen 0))
await_peer (suc n) seen exch_id =
    or_next (with_store (seen 0) (peer_by_exch_id exch_id (seen 0)))
      (await_peer n (λ k. seen (suc k)) exch_id)

-- What processConnRes knows of the peer, once it was found; the store is the one at that time.
abbrev found_peer : Option (Text × Peer × PeerStore) → Method Prober (Text × Peer)
found_peer none p = (err no_peer, p)
found_peer (some r) p = (ok (r.0, r.1), record p { peers = r.2 })

abbrev pub signal_to : Option Text → List Text → List Text
signal_to none signals = signals
signal_to (some chan) signals = chan ∷ signals

-- The services of the agent's document
abbrev pub own_services : Fresh → Prober → Text → List Service
own_services f p key =
    record { id = f.message_id; typ = servc_message; endpoint = p.exch_endpoint; pub_key = key }
    ∷ record {
      id = f.join_id;
      typ = servc_group_join;
      endpoint = p.grp_join_endpoint;
      pub_key = key;
    }
    ∷ []

module _ (w : World) where
  unfoldable pub invite : Result Keys → Text → Text → Method Prober Text
  invite generated service_id inv_id p =
      (do
        on_keys (generate_inv_keys generated)
        key ← ask_keys inv_public_key
        inv_did_doc ← lift (
            create_did_doc (
              record {
                id = service_id;
                typ = servc_did_exchange;
                endpoint = p.inv_endpoint;
                pub_key = key;
              }
              ∷ []))
        lift (create_inv w.invitations p.hostname inv_id p.label [] inv_did_doc))
        p

  -- setConnPrereqs: the keys are there once they were generated, so the errors that the code drops
  -- do not occur.
  unfoldable pub set_conn_prereqs : Fresh → Text → Method Prober (Text × Text)
  set_conn_prereqs f peer p =
      (do
        on_keys (generate_keys peer f.keys)
        key ← ask_keys (public_key peer)
        prv_key ← ask_keys (private_key peer)
        did_doc ← lift (create_did_doc (own_services f p key))
        did ← lift (create_peer_did w.hash did_doc)
        modify (λ q. record q { did_store = add_did peer did did_doc q.did_store })
        pure (key, prv_key))
        p

  unfoldable pub accept : Fresh → Client → Text → Method Prober Text
  accept f client encoded_inv p =
      (do
        parsed ← lift (parse_inv w.invitations encoded_inv)
        both ← set_conn_prereqs f parsed.0.label
        known ← (λ q. (get_did parsed.0.label q.did_store, q))
        doc_bytes ← lift (w.docs.marshal known.1)
        enc_doc ← lift (pack w.packing f.drawn doc_bytes parsed.2 both.0 both.1)
        req ← lift (create_conn_req w.exchange f.id f.attach_id p.label parsed.0.id known.0 enc_doc)
        conn_req_bytes ← lift (w.exchange.reqs.marshal req)
        post client conn_req conn_req_bytes parsed.1
        modify (λ q. record q {
          peers =
              add_peer parsed.0.label
                (record {
                  active = false;
                  did = parsed.0.from;
                  exchange_th_id = req.th_id;
                  services = [];
                })
                q.peers;
        })
        pure parsed.0.label)
        p

  -- SyncAccept, up to the wait on its channel
  unfoldable pub sync_accept : Fresh → Client → Text → Text → Method Prober (Unit {0})
  sync_accept f client chan encoded_inv = do
    inviter ← accept f client encoded_inv
    modify (λ q. record q { sync_cons = insert inviter chan q.sync_cons })

  abbrev with_services : List DocService → Result (List Service)
  with_services [] = err no_service
  with_services (s ∷ ss) = ok (peer_services (s ∷ ss))

  -- getPeerInfo
  unfoldable pub get_peer_info : Text → Text → Text → Method Prober (List Service)
  get_peer_info enc_doc_bytes rec_pub_key rec_prv_key = do
    peer_doc_bytes ← lift (unpack w.packing enc_doc_bytes rec_pub_key rec_prv_key)
    peer_did_doc ← lift (w.docs.unmarshal peer_doc_bytes)
    lift (with_services peer_did_doc.service)

  unfoldable pub process_conn_req : Fresh → Client → Text → Method Prober (Unit {0})
  process_conn_req f client bytes = do
    req ← lift (parse_conn_req w.exchange bytes)
    inv_pub ← ask_keys inv_public_key
    inv_prv ← ask_keys inv_private_key
    svcs ← get_peer_info req.enc_doc_bytes inv_pub inv_prv
    to ← lift (info_by_servc servc_message svcs)
    both ← set_conn_prereqs f req.label
    known ← (λ q. (get_did req.label q.did_store, q))
    doc_bytes ← lift (w.docs.marshal known.1)
    enc_did_doc ← lift (pack w.packing f.drawn doc_bytes to.1 both.0 both.1)
    res ← lift (create_conn_res w.exchange f.id f.attach_id req.exch_th_id known.0 enc_did_doc)
    conn_res_bytes ← lift (w.exchange.ress.marshal res)
    post client conn_res conn_res_bytes to.0
    modify (λ q. record q {
      peers =
          add_peer req.label
            (record {
              active = false;
              did = req.peer_did;
              exchange_th_id = req.exch_th_id;
              services = svcs;
            })
            q.peers;
    })
    print (text "Connection established with " ++ req.label)

  unfoldable pub process_conn_res : (ℕ → PeerStore) → Text → Method Prober (Unit {0})
  process_conn_res seen bytes = do
    res ← lift (parse_conn_res w.exchange bytes)
    known ← found_peer (await_peer retry_count seen res.0)
    own_pub_key ← ask_keys (public_key known.0)
    own_prv_key ← ask_keys (private_key known.0)
    svcs ← get_peer_info res.1 own_pub_key own_prv_key
    modify (λ q. record q {
      peers =
          add_peer known.0
            (record { active = false; did = known.1.did; exchange_th_id = res.0; services = svcs })
            q.peers;
    })
    modify (λ q. record q { signals = signal_to (lookup known.0 q.sync_cons) q.signals })
    print (text "Connection established with " ++ known.0)
