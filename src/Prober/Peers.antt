-- ===== src/Prober/Peers.antt =====
-- prober/peers.go and prober/dids.go. The stores hold values of one type each, so that no type
-- assertion fails; Range is in the order of the list.
use zero_comm.Prelude.{
  Text, [], ◌∷◌, Option, none, some, Result, ok, no_peer, no_did, or_err, ◌>>=◌, ◌==◌,
  if◌then◌else◌,
}
use zero_comm.Prelude.Dict.{Dict, lookup, insert}
use zero_comm.Domain.{Peer, DidDocument}

abbrev pub PeerStore : Type 0
PeerStore = Dict Peer

abbrev pub add_peer : Text → Peer → PeerStore → PeerStore
add_peer label pr store = insert label pr store

unfoldable pub peer_by_label : Text → PeerStore → Result Peer
peer_by_label label store = or_err (lookup label store) no_peer

unfoldable pub peer_by_exch_id : Text → PeerStore → Option (Text × Peer)
peer_by_exch_id exch_id [] = none
peer_by_exch_id exch_id ((name, pr) ∷ store) =
    if pr.exchange_th_id == exch_id then some (name, pr) else peer_by_exch_id exch_id store

pub record DidStore : Type 0 where
  pub did_map : Dict Text
  pub did_doc_map : Dict DidDocument

abbrev pub init_did_store : DidStore
init_did_store = record { did_map = []; did_doc_map = [] }

unfoldable pub add_did : Text → Text → DidDocument → DidStore → DidStore
add_did label did doc d = record {
  did_map = insert label did d.did_map;
  did_doc_map = insert label doc d.did_doc_map;
}

unfoldable pub get_did : Text → DidStore → Result (Text × DidDocument)
get_did label d = do
  did ← or_err (lookup label d.did_map) no_did
  did_doc ← or_err (lookup label d.did_doc_map) no_did
  ok (did, did_doc)
