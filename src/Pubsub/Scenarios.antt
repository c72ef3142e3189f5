-- ===== src/Pubsub/Scenarios.antt =====
-- Two nodes of a group, alice and bob, and the theorems on what passes between them.
use mathlib.Core.List.{Mem, mem-cons_self}
use zero_comm.Prelude.{
  Text, text, true, false, [], ◌∷◌, ◌++◌, ◌≡◌, refl, arith, Result, ok, err, panic, inl, inr,
  ne_of_test, ◌==◌,
}
use zero_comm.Prelude.Dict.{lookup}
use zero_comm.Domain.{Service, single_queue_mode}
use zero_comm.Domain.MsgType as Types
use zero_comm.Validator.Examples.{sample-IsDigest, member, alice, bob}
use zero_comm.Samples.Json.{
  members, statuses, subscribes, sub_responses, join_requests, join_responses, members-RoundTrips,
  statuses-RoundTrips, subscribes-RoundTrips, sub_responses-RoundTrips, join_requests-RoundTrips,
  join_responses-RoundTrips,
}
use zero_comm.Syncer.{message}
use zero_comm.Syncer.Examples.{sample as clocks, sample-RoundTrips as clocks-RoundTrips}
use zero_comm.Stores.Group.{membr, membrs, mode, params, checksum, joined}
use zero_comm.Stores.Subscriber.{query_by_topic}
use zero_comm.Transport.Topics.{data_topic_in}
use zero_comm.Pubsub.Node.{Outside, Node, publish_call, reply_call, request_call}
use zero_comm.Pubsub.Packer.{pack}
use zero_comm.Pubsub.Processor.{join_reqs}
use zero_comm.Pubsub.Agent.{send, leave, pack_entry}
use zero_comm.Pubsub.Requests.{req_state, subscribe_to}
use zero_comm.Pubsub.Delivery.{sent_delivered}
use zero_comm.Pubsub.Departure.{left_expelled, Parting, self, status_of}
use zero_comm.Pubsub.Admission.{state_shared, Asking, request_of, answer_of}
use zero_comm.Pubsub.Subscription.{subscription_agreed, Subscribing, subscribe_of, res_of}
use zero_comm.Pubsub.Examples.{outside, node}
use zero_comm.Pubsub.Agent.Examples.{speaker, single}

abbrev pub chess : Text
chess = text "ch"

-- A message without the key that was put before it
abbrev behind_key : Text → Text
behind_key [] = []
behind_key (k ∷ content) = content

abbrev pub key_service : Service
key_service = record { id = []; typ = []; endpoint = text "e"; pub_key = text "k" }

-- What is outside a node of which `peer` is the other one: a sealed message is the key and the
-- message, and the connection with a peer has the peer's label as its exchange id.
abbrev pub world : Text → Text → Text → Outside
world me peer replied = record (outside (member bob)) {
  clocks = clocks;
  members = members;
  statuses = statuses;
  subscribes = subscribes;
  sub_responses = sub_responses;
  join_requests = join_requests;
  join_responses = join_responses;
  read_message = λ t c. ok (peer, behind_key c);
  valid_conn = λ l. l == me;
  peer_of = λ l. ok (record { active = true; did = []; exchange_th_id = l; services = [] });
  service = λ s l. ok key_service;
  sync_service = λ s l. ok key_service;
  respond = λ t c e. ok replied;
}

abbrev pub value : Result Text → Text
value (ok t) = t
value (err e) = []
value panic = []

abbrev bob_node : Node
bob_node = record speaker { my_label = bob }

sent_delivered_example :
    Mem
      (publish_call (data_topic_in single_queue_mode chess alice bob) (text "khi"))
      (send (world alice bob []) 5 chess (text "hi") speaker).1.calls
unfolding membr mode query_by_topic message lookup pack
sent_delivered_example =
    (sent_delivered (world alice bob []) (world bob alice []) (λ s k. k ++ text "hi")
      single_queue_mode chess (text "hi") (text "hi") 5 (member alice) ((bob, text "k") ∷ [])
      speaker bob_node bob (text "k") (λ c. refl) clocks-RoundTrips refl refl refl refl
      mem-cons_self refl (λ s k. refl) refl (inl (refl, refl)) refl (omega arith)).0

abbrev farewell : Text
farewell = value (members.marshal (self chess speaker false true))

parting :
    Parting
      (world alice bob [])
      (world bob alice [])
      (λ l. l)
      (λ l. text "k" ++ farewell)
      bob
      alice
      farewell
unfolding pack_entry pack lookup
parting = record {
  works = λ c. refl;
  replies = λ c. (refl, refl);
  packs = λ x. refl;
  statuses_trip = statuses-RoundTrips;
  members_trip = members-RoundTrips;
  same_statuses = refl;
  same_members = refl;
  inflates = λ t. refl;
  own = λ l. refl;
  full = ne_of_test (text "k" ++ farewell) [] refl;
  reads = refl;
  other = ne_of_test bob alice refl;
  no_hello = ne_of_test farewell (text "hello_") refl;
}

left_expelled_example :
    joined chess (leave (world alice bob []) (text "1") chess speaker).1.gs ≡ false
unfolding lookup membrs
left_expelled_example =
    (left_expelled (world alice bob []) (world bob alice []) (λ l. l) (λ l. text "k" ++ farewell)
      bob farewell
      (value (
        statuses.marshal (status_of (text "1") chess speaker (λ l. l) (λ l. text "k" ++ farewell))))
      (text "1") chess speaker (member alice) (member bob ∷ []) bob_node sample-IsDigest parting
      (λ c. (refl, refl)) refl (inr (inl refl)) refl refl).1

-- carol asks alice for the group, and subscribes at her.
abbrev pub carol_node : Node
carol_node = record node { my_label = text "ca"; gs = [] }

abbrev asked : Text
asked = value (join_requests.marshal (request_of (text "1") chess (text "inv") carol_node))

abbrev answer : Text
answer =
    value (join_responses.marshal (answer_of (text "2") single (member alice ∷ member bob ∷ [])))

asking :
    Asking
      (world (text "ca") alice (text "k" ++ answer))
      (world alice (text "ca") [])
      key_service
      (text "ca")
      alice
      asked
      (text "k" ++ asked)
      answer
      (text "k" ++ answer)
unfolding pack
asking = record {
  service = refl;
  request = refl;
  request_read = refl;
  reply = refl;
  responds = refl;
  reply_read = refl;
  requests_trip = join_requests-RoundTrips;
  same_requests = refl;
  responses_trip = join_responses-RoundTrips;
  same_responses = refl;
}

state_shared_example :
    (join_reqs (world alice (text "ca") []) (text "2") Types.group_join (text "k" ++ asked) speaker
      ≡ (ok tt, record speaker { calls = reply_call (text "k" ++ answer) ∷ [] }))
    × (req_state
          (world (text "ca") alice (text "k" ++ answer))
          (text "1")
          chess
          alice
          (text "inv")
          carol_node
        ≡ (
          ok (answer_of (text "2") single (member alice ∷ member bob ∷ [])),
          record carol_node {
            calls = request_call Types.group_join (text "k" ++ asked) (text "e") ∷ [];
          },
        ))
unfolding params membrs lookup
state_shared_example =
    state_shared (world (text "ca") alice (text "k" ++ answer)) (world alice (text "ca") [])
      key_service alice asked (text "k" ++ asked) answer (text "k" ++ answer) (text "1") (text "2")
      chess (text "inv") carol_node speaker single (member alice) (member bob ∷ []) asking refl refl
      refl refl

abbrev wish : Text
wish = value (
    subscribes.marshal
      (subscribe_of (world (text "ca") alice []) (text "1") chess false (text "k") carol_node))

abbrev consent : Text
consent = value (sub_responses.marshal (res_of (member alice) [] speaker))

subscribing :
    Subscribing
      (world (text "ca") alice (text "k" ++ consent))
      (world alice (text "ca") [])
      key_service
      (text "ca")
      alice
      (text "k")
      wish
      (text "k" ++ wish)
      consent
      (text "k" ++ consent)
unfolding pack
subscribing = record {
  own_key = refl;
  service = refl;
  request = refl;
  request_read = refl;
  reply = refl;
  responds = refl;
  reply_read = refl;
  requests_trip = subscribes-RoundTrips;
  same_requests = refl;
  responses_trip = sub_responses-RoundTrips;
  same_responses = refl;
  base58 = refl;
}

subscription_agreed_example :
    subscribe_to
      (world (text "ca") alice (text "k" ++ consent))
      (text "1")
      chess
      false
      (member alice)
      carol_node
    ≡ (
      ok (res_of (member alice) [] speaker),
      record carol_node { calls = request_call Types.subscribe (text "k" ++ wish) (text "e") ∷ [] },
    )
unfolding membr checksum lookup
subscription_agreed_example =
    (subscription_agreed (world (text "ca") alice (text "k" ++ consent))
      (world alice (text "ca") []) key_service (text "k") wish (text "k" ++ wish) consent
      (text "k" ++ consent) (text "1") chess [] false carol_node speaker (member alice)
      (member alice) subscribing (λ c. (refl, refl)) refl refl refl refl).1
