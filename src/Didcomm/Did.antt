-- ===== src/Didcomm/Did.antt =====
-- didcomm/did/handler.go. JSON, SHA-256 and base58 are parameters.
use zero_comm.Prelude.{
  Text, text, List, [], ◌∷◌, ◌++◌, Result, ok, err, invalid_did, wrong_did, ◌>>=◌, ltb, length,
  take, ◌==◌, if◌then◌else◌,
}
use zero_comm.Prelude.Buffer.{encode_into, trim}
use zero_comm.Prelude.Base64.{encode, std}
use zero_comm.Domain.{Service, DocService, DidDocument}

pub record DidHash : Type 0 where
  pub marshal : DidDocument → Result Text
  pub sha256 : Text → Text
  pub base58_encode : Text → Text

-- One round of the loop of CreateDIDDoc: the key goes through a buffer of 64 bytes.
unfoldable pub doc_service : Service → Result DocService
unfolding encode_into trim encode
doc_service svc = do
  encoded_key ← encode_into 64 (encode std svc.pub_key)
  ok (record {
    id = svc.id;
    typ = svc.typ;
    recipient_keys = trim encoded_key ∷ [];
    routing_keys = [];
    service_endpoint = svc.endpoint;
    accept = [];
  })

unfoldable pub doc_services : List Service → Result (List DocService)
unfolding doc_service
doc_services [] = ok []
doc_services (svc ∷ svcs) = do s ← doc_service svc; rest ← doc_services svcs; ok (s ∷ rest)

unfoldable pub create_did_doc : List Service → Result DidDocument
unfolding doc_services
create_did_doc svcs = do
  msg_svcs ← doc_services svcs
  ok (record { context = []; id = []; service = msg_svcs })

abbrev pub peer_did_prefix : Text
peer_did_prefix = text "did:peer:1z"

unfoldable pub create_peer_did : DidHash → DidDocument → Result Text
create_peer_did d doc = do
  byts ← d.marshal doc
  ok (peer_did_prefix ++ d.base58_encode (d.sha256 byts))

unfoldable pub validate_peer_did : Text → Result (Unit {0})
validate_peer_did did =
    if ltb (length did) 11
    then err invalid_did
    else if take 11 did == peer_did_prefix
    then ok tt
    else err wrong_did
