-- ===== src/Pubsub/Processor.antt =====
-- pubsub/processor.go. A uuid that a message gets is an argument.
pub mod Membership
use zero_comm.Prelude.{
  ℕ, Text, text, Bool, true, false, List, [], ◌∷◌, ◌++◌, Option, none, some, Result, ok, err, panic,
  Error, not_intended, not_eligible, no_member, ◌==◌, if◌then◌else◌, length, eqb, or_err,
}
use zero_comm.Prelude.Dict.{Dict, lookup, insert, delete}
use zero_comm.Prelude.Method.{Method, modify, ◌>>=◌, ◌>>◌, lift, pure, raise, attempt, recover}
use zero_comm.Domain.{
  Member, GroupParams, Status, Subscribe, subscriber_role, null_role, hello_prefix,
  single_queue_mode, ResGroupJoin, join_response_v1,
}
use zero_comm.Domain.MsgType.{group_join, group_status, group_msg, status_ack}
use zero_comm.Domain.MsgType as Types
use zero_comm.Stores.Group.{
  add_membrs, delete_membr, membrs, membr, mode, order_enabled, join_consistent, checksum,
}
use zero_comm.Stores.Subscriber.{add, remove}
use zero_comm.Syncer.{parse}
use zero_comm.Transport.Topics.{group_name_by_data_topic}
use zero_comm.Pubsub.Channels.{send_connect, send_subscribe, send_auth, both_reply}
use zero_comm.Pubsub.Packer.{pack}
use zero_comm.Pubsub.Node.{
  Call, remv_keys_call, message_call, reply_call, Outside, Node, call, print, on_groups, ask_groups,
  on_syncer,
}

-- validJoiner
abbrev pub valid_joiner : Text → Bool
valid_joiner label = true

abbrev eligible : Text → Result (Unit {0})
eligible label = if valid_joiner label then ok tt else err not_eligible

-- acker
unfoldable pub acker : Bool → Text → Text → Node → Node
acker register label ackr n =
    if register
    then record n { ack_chans = insert label ackr n.ack_chans }
    else record n { ack_chans = delete label n.ack_chans }

abbrev pub send_on : Option Text → Text → List (Text × Text) → List (Text × Text)
send_on none content acked = acked
send_on (some chan) content acked = (chan, content) ∷ acked

-- The entry that the loop of state stops at: the first one of a connection that the agent has.
unfoldable pub intended : (Text → Bool) → Dict Text → Text
intended valid [] = []
intended valid ((exch_id, enc_msg) ∷ msgs) = if valid exch_id then enc_msg else intended valid msgs

abbrev pub only_if : Bool → Method Node (Unit {0}) → Method Node (Unit {0})
only_if true f = f
only_if false f = pure tt

-- msg.Reply <- packedMsg
abbrev pub reply : Text → Method Node (Unit {0})
reply packed_msg = modify (λ n. record n { calls = reply_call packed_msg ∷ n.calls })

module _ (o : Outside) where
  abbrev pub unmarshalled : Result Text → Result Status
  unmarshalled (ok out) = o.statuses.unmarshal out
  unmarshalled (err e) = err e
  unmarshalled panic = panic

  unfoldable pub extract_status : Text → Result Status
  extract_status msg = unmarshalled (o.decode_all msg)

  unfoldable pub remove_member : Member → Text → Method Node (Unit {0})
  remove_member m topic n =
      (do
        send_connect o false null_role [] [] m
        only_if m.publisher (send_subscribe o false false false true topic n.my_label m)
        modify (λ k. record k { subs = remove topic m.label k.subs })
        on_groups (delete_membr o.digest topic m.label)
        call o (remv_keys_call m.label))
        n

  -- The member message of a status
  abbrev pub update_member : Status → Member → Method Node (Unit {0})
  update_member status m =
      if m.active then on_groups (add_membrs o.digest status.topic (m ∷ [])) else (do
        remove_member m status.topic
        print (m.label ++ (text " left group " ++ status.topic)))

  abbrev pub status_text : Status → Text × Text → Method Node (Unit {0})
  status_text status read n =
      if read.1 == hello_prefix
      then call o (message_call status_ack read.0 n.pub_endpoint) n
      else (do m ← lift (o.members.unmarshal read.1); update_member status m) n

  -- A status without an entry for one of the agent's connections is an error.
  abbrev pub status_for : Status → Text → Method Node (Unit {0})
  status_for status valid_msg =
      if valid_msg == []
      then raise not_intended
      else (do read ← lift (o.read_message group_status valid_msg); status_text status read)

  unfoldable pub state : Text → Method Node (Unit {0})
  state msg = do
    status ← lift (extract_status msg)
    status_for status (intended o.valid_conn status.auth_msgs)

  abbrev deliver : Text → Text → Text → Method Node (Unit {0})
  deliver topic sender content = do
    modify (λ n. record n { acked = send_on (lookup sender n.ack_chans) content n.acked })
    print (sender ++ (text " sent in group '" ++ (topic ++ (text "': " ++ content))))

  -- A message that cannot be read is no error in the mode of a single queue.
  abbrev unread : Text → Error → Method Node (Unit {0})
  unread topic e = do
    m ← ask_groups (mode topic)
    (if m == single_queue_mode then pure tt else raise e)

  unfoldable pub group_data : Text → Text → Method Node (Unit {0})
  group_data zmq_topic msg n =
      recover (o.read_message group_msg msg)
        (λ read. do
          content ← on_syncer (parse o.clocks (group_name_by_data_topic zmq_topic) read.1)
          deliver (group_name_by_data_topic zmq_topic) read.0 content)
        (unread (group_name_by_data_topic zmq_topic)) n

  abbrev pub answer_join : Text → Text → Text → List Member → Method Node (Unit {0})
  answer_join id label topic [] = raise no_member
  answer_join id label topic (m ∷ ms) = do
    lift (eligible label)
    ordered ← ask_groups (order_enabled topic)
    consistent ← ask_groups (join_consistent topic)
    how ← ask_groups (mode topic)
    byts ← lift (
        o.join_responses.marshal (record {
          id = id;
          typ = join_response_v1;
          params = record { order_enabled = ordered; join_consistent = consistent; mode = how };
          members = m ∷ ms;
        }))
    packed_msg ← lift (pack o label none byts)
    reply packed_msg

  unfoldable pub join_reqs : Text → ℕ → Text → Method Node (Unit {0})
  join_reqs id typ content n =
      (do
        read ← lift (o.read_message typ content)
        req ← lift (o.join_requests.unmarshal read.1)
        answer_join id req.label req.topic (membrs req.topic n.gs))
        n

  unfoldable pub send_subscribe_res : Text → Member → Method Node (Unit {0})
  send_subscribe_res topic m n =
      (do
        curnt_membr ← lift (or_err (membr topic n.my_label n.gs) no_member)
        sum ← ask_groups (checksum topic)
        res_byts ← lift (
            o.sub_responses.marshal (record {
              publisher = curnt_membr.publisher;
              transport = record {
                servr_pub_key = n.servr_pub_key;
                client_pub_key = n.client_pub_key;
              };
              checksum = sum;
            }))
        packed_msg ← lift (pack o m.label none res_byts)
        reply packed_msg)
        n

  -- A request to subscribe, once it was read
  abbrev pub subscribed : Subscribe → Method Node (Unit {0})
  subscribed sm n =
      if sm.subscribe
      then (do
        lift (eligible sm.member.label)
        send_auth o sm.member.label sm.transport.servr_pub_key sm.transport.client_pub_key
            sm.member.publisher
        send_subscribe_res sm.topic sm.member
        send_connect o true subscriber_role n.my_label sm.topic sm.member
        modify (λ k. record k {
          subs = add sm.topic sm.member.label (o.base58_decode sm.pub_key) k.subs;
        }))
          n
      else (ok tt, record n { subs = remove sm.topic sm.member.label n.subs })

  unfoldable pub subscriptions : ℕ → Text → Method Node (Unit {0})
  subscriptions typ content = do
    read ← lift (o.read_message typ content)
    sm ← lift (o.subscribes.unmarshal read.1)
    subscribed sm
