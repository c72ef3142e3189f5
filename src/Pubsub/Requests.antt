-- ===== src/Pubsub/Requests.antt =====
-- What Join of pubsub/agent.go asks of the acceptor and of the members. The goroutines that subscribe
-- to the members run in the order of the members; each reaches its own member only. `id` gives the
-- uuid of each message.
use zero_comm.Prelude.{
  ℕ, Text, Bool, true, false, List, [], ◌∷◌, Option, none, some, Result, ok, err, panic,
  if◌then◌else◌, get_or,
}
use zero_comm.Prelude.Dict.{Dict, lookup, insert}
use zero_comm.Prelude.Method.{Method, modify, ◌>>=◌, ◌>>◌, lift, pure, attempt}
use zero_comm.Domain.{
  Member, Peer, ResGroupJoin, ResSubscribe, subscriber_role, servc_group_join, subscribe_v1,
  join_request_v1,
}
use zero_comm.Domain.MsgType as Types
use zero_comm.Stores.Subscriber.{add}
use zero_comm.Pubsub.Channels.{send_auth, send_connect}
use zero_comm.Pubsub.Packer.{pack}
use zero_comm.Pubsub.Node.{Outside, Node, accept_call, request_call, call}
use zero_comm.Pubsub.Agent.{own_member, inv_of}

-- What a request draws and reads
abbrev pub no_response : ResSubscribe
no_response = record {
  publisher = false;
  transport = record { servr_pub_key = []; client_pub_key = [] };
  checksum = [];
}

module _ (o : Outside) where
  -- client.Send, with the request in the trace
  abbrev pub request : ℕ → Text → Text → Method Node Text
  request typ content endpoint n = (
    o.respond typ content endpoint,
    record n { calls = request_call typ content endpoint ∷ n.calls },
  )

  unfoldable pub req_state : Text → Text → Text → Text → Method Node ResGroupJoin
  req_state id topic accptr inv n =
      (do
        s ← lift (o.sync_service servc_group_join accptr)
        byts ← lift (
            o.join_requests.marshal (record {
              id = id;
              typ = join_request_v1;
              label = n.my_label;
              topic = topic;
              requester_inv = inv;
            }))
        packed ← lift (pack o accptr (some s.pub_key) byts)
        res ← request Types.group_join packed s.endpoint
        read ← lift (o.read_message Types.group_join res)
        lift (o.join_responses.unmarshal read.1))
        n

  abbrev pub connect_unknown : Member → Result Peer → Method Node (Unit {0})
  connect_unknown m (ok pr) = pure tt
  connect_unknown m (err e) = do inv ← lift (o.oob_of m.inv); call o (accept_call inv)
  connect_unknown m panic = lift panic

  -- connectDIDComm: a peer that is known is connected
  unfoldable pub connect_didcomm : Member → Method Node (Unit {0})
  connect_didcomm m = connect_unknown m (o.peer_of m.label)

  -- subscribeData
  unfoldable pub subscribe_to : Text → Text → Bool → Member → Method Node ResSubscribe
  subscribe_to id topic publisher m n =
      (do
        sub_publc_key ← lift (o.public_key m.label)
        byts ← lift (
            o.subscribes.marshal (record {
              id = id;
              typ = subscribe_v1;
              subscribe = true;
              pub_key = o.base58_encode sub_publc_key;
              topic = topic;
              member = own_member n true publisher (inv_of (lookup topic n.invs));
              transport = record {
                servr_pub_key = n.servr_pub_key;
                client_pub_key = n.client_pub_key;
              };
            }))
        s ← lift (o.service servc_group_join m.label)
        packed ← lift (pack o m.label (some s.pub_key) byts)
        res ← request Types.subscribe packed s.endpoint
        read ← lift (o.read_message Types.subscribe res)
        lift (o.sub_responses.unmarshal read.1))
        n

  -- A member's response, if connecting to it and subscribing at it succeed; an error is only logged.
  unfoldable pub try_member : Text → Text → Bool → Member → Method Node (Option ResSubscribe)
  try_member id topic publisher m =
      if m.active
      then attempt (connect_didcomm m >> subscribe_to id topic publisher m) (λ r. pure (some r))
          (λ e. pure none)
      else pure none

  abbrev with_response : Text → Option ResSubscribe → Dict ResSubscribe → Dict ResSubscribe
  with_response label none res = res
  with_response label (some r) res = insert label r res

  -- the goroutines of Join
  unfoldable pub subscribe_all :
      (Text → Text) → Text → Bool → List Member → Method Node (Dict ResSubscribe)
  subscribe_all id topic publisher [] n = (ok [], n)
  subscribe_all id topic publisher (m ∷ ms) n =
      (do
        r ← try_member (id m.label) topic publisher m
        res ← subscribe_all id topic publisher ms
        pure (with_response m.label r res))
        n

  -- the end of connectMember
  abbrev pub add_subscriber : Text → Member → Bool → Method Node (Unit {0})
  add_subscriber topic m false = pure tt
  add_subscriber topic m true = do
    s ← lift (o.service servc_group_join m.label)
    modify (λ k. record k { subs = add topic m.label s.pub_key k.subs })

  unfoldable pub connect_member : Text → Bool → Member → ResSubscribe → Method Node (Unit {0})
  connect_member topic publisher m res n =
      (do
        send_auth o m.label res.transport.servr_pub_key res.transport.client_pub_key res.publisher
        send_connect o true subscriber_role n.my_label topic m
        add_subscriber topic m publisher)
        n

  -- The second loop of Join: a member without a response counts with the zero value of one.
  unfoldable pub connect_all :
      Text → Bool → Dict ResSubscribe → List Member → Dict Text → Method Node (Dict Text)
  connect_all topic publisher res [] hashes n = (ok hashes, n)
  connect_all topic publisher res (m ∷ ms) hashes n =
      if m.active
      then (do
        connect_member topic publisher m (get_or (lookup m.label res) no_response)
        connect_all topic publisher res ms
            (insert m.label (get_or (lookup m.label res) no_response).checksum hashes))
          n
      else connect_all topic publisher res ms hashes n
