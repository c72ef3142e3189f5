-- ===== src/Transport/Peers.antt =====
-- pubsub/transport/peers.go: the endpoints that acknowledged the hello message. ReadMessage is an
-- argument: the outcome that it had for the message of the channel.
use zero_comm.Prelude.{Text, Bool, true, List, [], Result, ok, is_some}
use zero_comm.Prelude.Dict.{Dict, lookup, insert, keys}

abbrev pub Peers : Type 0
Peers = Dict Bool

abbrev pub init_peer_store : Peers
init_peer_store = []

unfoldable pub connected : Text → Peers → Bool
connected endpoint p = is_some (lookup endpoint p)

abbrev pub connected_list : Peers → List Text
connected_list p = keys p

-- A round of listen: the endpoint is the second value of ReadMessage.
unfoldable pub acked : Result (Text × Text) → Peers → Peers
acked (ok (msg, endpoint)) p = insert endpoint true p
acked r p = p
