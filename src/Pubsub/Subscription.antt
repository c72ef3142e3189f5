-- ===== src/Pubsub/Subscription.antt =====
-- The subscription of pubsub/agent.go at a member, answered by the handler of pubsub/processor.go.
use zero_comm.Prelude.{
  Text, Bool, true, false, ◌∷◌, some, none, ◌≡◌, refl, ok, RoundTrips, unmarshal-marshalled,
  if◌then◌else◌,
}
use zero_comm.Prelude.Dict.{lookup}
use zero_comm.Domain.{
  Member, Service, Subscribe, ResSubscribe, servc_group_join, subscribe_v1, subscriber_role,
}
use zero_comm.Domain.MsgType as Types
use zero_comm.Stores.Group.{membr, checksum}
use zero_comm.Stores.Subscriber.{add}
use zero_comm.Pubsub.Node.{Outside, Node, Call, reply_call, request_call, auth_call, connect_call}
use zero_comm.Pubsub.Channels.{Replies}
use zero_comm.Pubsub.Packer.{pack}
use zero_comm.Pubsub.Processor.{subscriptions, send_subscribe_res}
use zero_comm.Pubsub.Agent.{own_member, inv_of}
use zero_comm.Pubsub.Requests.{subscribe_to}

abbrev pub subscribe_of : Outside → Text → Text → Bool → Text → Node → Subscribe
subscribe_of o id topic publisher key n = record {
  id = id;
  typ = subscribe_v1;
  subscribe = true;
  pub_key = o.base58_encode key;
  topic = topic;
  member = own_member n true publisher (inv_of (lookup topic n.invs));
  transport = record { servr_pub_key = n.servr_pub_key; client_pub_key = n.client_pub_key };
}

abbrev pub res_of : Member → Text → Node → ResSubscribe
res_of current sum a = record {
  publisher = current.publisher;
  transport = record { servr_pub_key = a.servr_pub_key; client_pub_key = a.client_pub_key };
  checksum = sum;
}

-- The connection between a newcomer and a member that it subscribes to
pub record Subscribing (o q : Outside) (s : Service) (me label key asked sent answer replied : Text)
    : Type 0 where
  pub own_key : o.public_key label ≡ ok key
  pub service : o.service servc_group_join label ≡ ok s
  pub request : pack o label (some s.pub_key) asked ≡ ok sent
  pub request_read : q.read_message Types.subscribe sent ≡ ok (me, asked)
  pub reply : pack q me none answer ≡ ok replied
  pub responds : o.respond Types.subscribe sent s.endpoint ≡ ok replied
  pub reply_read : o.read_message Types.subscribe replied ≡ ok (label, answer)
  pub requests_trip : RoundTrips o.subscribes
  pub same_requests : q.subscribes ≡ o.subscribes
  pub responses_trip : RoundTrips q.sub_responses
  pub same_responses : o.sub_responses ≡ q.sub_responses
  pub base58 : q.base58_decode (o.base58_encode key) ≡ key

module _ (o q : Outside) (s : Service) (key asked sent answer replied id topic sum : Text)
    (publisher : Bool) (n a : Node) (m current : Member) where
  -- A newcomer that subscribes at a member of the group gets the member's role, its transport keys and
  -- its checksum of the group; the member allows the newcomer's keys, replies, connects to it, and from
  -- then on has it among the topic's subscribers, under the public key that the newcomer uses with it.
  pub subscription_agreed :
      Subscribing o q s n.my_label m.label key asked sent answer replied
      → Replies q
      → membr topic a.my_label a.gs ≡ some current
      → checksum topic a.gs ≡ ok sum
      → o.subscribes.marshal (subscribe_of o id topic publisher key n) ≡ ok asked
      → q.sub_responses.marshal (res_of current sum a) ≡ ok answer
      → let mine = own_member n true publisher (inv_of (lookup topic n.invs)) in
        (subscriptions q Types.subscribe sent a ≡ (
          ok tt,
          record a {
            calls =
                connect_call true subscriber_role a.my_label topic mine
                ∷ reply_call replied
                ∷ auth_call n.my_label n.servr_pub_key n.client_pub_key
                    (if publisher then true else false)
                ∷ a.calls;
            subs = add topic n.my_label key a.subs;
          },
        ))
        × (subscribe_to o id topic publisher m n ≡ (
          ok (res_of current sum a),
          record n { calls = request_call Types.subscribe sent s.endpoint ∷ n.calls },
        ))
  unfolding subscriptions subscribe_to send_subscribe_res
  subscription_agreed k replies found summed written answered =
      let mine : Member = own_member n true publisher (inv_of (lookup topic n.invs)) in
      let auth : Call =
        auth_call n.my_label n.servr_pub_key n.client_pub_key (if publisher then true else false) in
      let connect : Call = connect_call true subscriber_role a.my_label topic mine in
      let read =
        unmarshal-marshalled o.subscribes q.subscribes (subscribe_of o id topic publisher key n)
          asked k.requests_trip k.same_requests written in
      let back =
        unmarshal-marshalled q.sub_responses o.sub_responses (res_of current sum a) answer
          k.responses_trip k.same_responses answered in
      (
        rw k.request_read (
            rw read (
              rw (replies auth).0 (
                rw (replies auth).1 (
                  rw found (
                    rw summed (
                      rw answered (
                        rw k.reply (
                          rw (replies connect).0
                            (rw (replies connect).1 (rw k.base58 refl)))))))))),
        rw k.own_key (
            rw written
              (rw k.service (rw k.request (rw k.responds (rw k.reply_read (rw back refl)))))),
      )
