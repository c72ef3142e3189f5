-- ===== src/Pubsub/Agent/Examples.antt =====
-- Tests of pubsub/agent.go, and its theorems at concrete nodes.
use zero_comm.Prelude.{
  Text, text, true, false, List, [], ◌∷◌, none, some, ◌≡◌, refl, ok, err, marshalling, ◌++◌, Codec,
  All, ◌==◌, ◌&&◌, if◌then◌else◌, ◌<◌, length, invalid_mode,
}
use zero_comm.Domain.{
  Peer, Service, GroupParams, ResGroupJoin, ResSubscribe, valid_mode, single_queue_mode,
}
use zero_comm.Validator.Joiner.{OthersReport}
use zero_comm.Pubsub.Join.Reports.{reported}
use zero_comm.Validator.Examples.{
  same_order, same_order_covers, sample, sample-IsDigest, member, alice, bob, group, group_sum,
}
use zero_comm.Validator.{valid_join, calculate, verify, order}
use zero_comm.Prelude.Dict.{Dict, lookup, insert}
use zero_comm.Prelude.Base64.{encode}
use zero_comm.Prelude.Sort.{sort}
use zero_comm.Stores.Group.View.{view}
use zero_comm.Stores.Group.Invariant.{IsStore}
use zero_comm.Stores.Subscriber.{key_of}
use zero_comm.Pubsub.Node.{publish_call, Outside, Node}
use zero_comm.Pubsub.Agent.{
  create, send, own_member, compress_status, pack_each, pack_entry, notify_all,
}
use zero_comm.Pubsub.Agent.Sending.{published_onto, send_publishes, create_outcome}
use zero_comm.Pubsub.Join.{keep_inv, join, enter, subscribe_members, verified, Course}
use zero_comm.Pubsub.Requests.{
  req_state, subscribe_all, subscribe_to, try_member, connect_didcomm, connect_member, connect_all,
}
use zero_comm.Pubsub.Waiting.{wait_for_conns, compress_hellos, pack_hellos, greet}
use zero_comm.Pubsub.Waiting.Ends.{wait_for_conns_ends, IsPeer, HasAcked}
use zero_comm.Pubsub.Packer.{pack}
use zero_comm.Transport.Peers.{connected, Peers}
use zero_comm.Transport.Topics.{state_topic}
use zero_comm.Pubsub.Examples.{outside, node}
use zero_comm.Pubsub.Join.Consistency.{join_verified}

abbrev pub single : GroupParams
single = record { order_enabled = false; join_consistent = true; mode = single_queue_mode }

-- A node that speaks in a group of its own and bob, whose messages have no order.
abbrev pub speaker : Node
speaker = record node {
  my_label = alice;
  gs =
      (
        text "ch",
        record {
          topic = text "ch";
          checksum = [];
          members = some ((alice, member alice) ∷ (bob, member bob) ∷ []);
          group_params = some single;
          last_updated = 0;
        },
      )
      ∷ [];
  subs = (text "ch", (bob, text "k") ∷ []) ∷ [];
}

send_publishes_example :
    let (result, after) = send (outside (member bob)) 5 (text "ch") (text "hi") speaker in
    (result ≡ ok (3 ∷ []))
    × (after.calls
        ≡ published_onto
            (λ sub key. key ++ text "hi")
            single_queue_mode
            (text "ch")
            alice
            ((bob, text "k") ∷ [])
            [])
    × (after.gs ≡ speaker.gs)
unfolding zero_comm.Stores.Group.membr zero_comm.Stores.Group.mode
    zero_comm.Stores.Subscriber.query_by_topic zero_comm.Syncer.message lookup pack
send_publishes_example =
    send_publishes (outside (member bob)) (λ c. refl) (λ sub key. key ++ text "hi")
      single_queue_mode (text "ch") (text "hi") (text "hi") 5 (member alice) ((bob, text "k") ∷ [])
      speaker refl refl refl refl (λ sub key. refl) refl

create_outcome_example :
    let (result, after) = create (outside (member bob)) 5 (text "go") true single node in
    let m = own_member node true true (text "inv") in
    (valid_mode single.mode ≡ true
      → (result ≡ ok tt)
        × ((t l : Text)
            → view after.gs t l
              ≡ (if text "go" == t && node.my_label == l then some m else view node.gs t l))
        × (IsStore sample node.gs → IsStore sample after.gs))
    × (valid_mode single.mode ≡ false → (result ≡ err invalid_mode) × (after.gs ≡ node.gs))
create_outcome_example =
    create_outcome (outside (member bob)) 5 (text "go") (text "inv") true single node
      sample-IsDigest refl

-- A node outside the group, which the others let in.
abbrev always : {A : Type 0} → A → Codec A
always a = record { marshal = λ x. ok []; unmarshal = λ t. ok a }

abbrev chess_group : ResGroupJoin
chess_group = record { id = []; typ = []; params = single; members = group }

abbrev agreed : ResSubscribe
agreed = record {
  publisher = true;
  transport = record { servr_pub_key = []; client_pub_key = [] };
  checksum = group_sum;
}

abbrev some_peer : Peer
some_peer = record { active = true; did = []; exchange_th_id = []; services = [] }

abbrev some_service : Service
some_service = record { id = []; typ = []; endpoint = []; pub_key = text "k" }

abbrev welcome : Outside
welcome = record (outside (member bob)) {
  peer_of = λ l. ok some_peer;
  service = λ s l. ok some_service;
  sync_service = λ s l. ok some_service;
  subscribes = record { marshal = λ x. ok []; unmarshal = λ t. err marshalling };
  sub_responses = always agreed;
  join_requests = record { marshal = λ x. ok []; unmarshal = λ t. err marshalling };
  join_responses = always chess_group;
}

abbrev newcomer : Node
newcomer = record node { gs = [] }

-- The members acknowledge after the second hello.
abbrev course : Course
course = record {
  now = 5;
  id = λ t. t;
  range_mems = same_order;
  later = welcome;
  polls = [] ∷ ((alice, true) ∷ (bob, true) ∷ []) ∷ [];
}

join-newcomer : (join welcome course (text "ch") alice false newcomer).0 ≡ ok (some tt)
unfolding join enter req_state subscribe_members subscribe_all subscribe_to try_member
    connect_didcomm connect_member connect_all verified valid_join verify calculate order sort
    encode compress_status pack_each pack_entry notify_all pack wait_for_conns compress_hellos
    pack_hellos greet connected lookup insert zero_comm.Stores.Group.joined
    zero_comm.Stores.Group.set_params zero_comm.Stores.Group.add_membrs
    zero_comm.Stores.Group.membrs zero_comm.Stores.Group.recalculate
    zero_comm.Stores.Group.add_members
join-newcomer = refl

join_verified_example :
    (inv : Text) × (there : Node) × (g : ResGroupJoin) × (res : Dict ResSubscribe) × ((req_state
        welcome
        (text "request")
        (text "ch")
        alice
        inv
        (keep_inv (text "ch") inv newcomer).1).0
      ≡ ok g)
    × ((subscribe_all welcome (λ l. text "subscribe" ++ l) (text "ch") false g.members there).0
        ≡ ok res)
    × (g.params.join_consistent ≡ true
        → 1 < length g.members
        → (sum : Text) × (calculate sample g.members ≡ ok sum)
          × OthersReport alice sum (reported res g.members []))
join_verified_example =
    join_verified welcome course (text "ch") alice false newcomer (some tt) same_order_covers
      join-newcomer

alice_silent : ¬ All (HasAcked ((bob, true) ∷ [])) group
unfolding lookup
alice_silent h = h.1.0 refl

wait_for_conns_ends_example :
    let polls : List Peers = ((bob, true) ∷ []) ∷ [] in
    let hello = publish_call (state_topic (text "ch")) [] in
    (¬ All (IsPeer welcome) group
      → wait_for_conns welcome (text "1") (text "ch") group polls newcomer ≡ (ok none, newcomer))
    × (All (IsPeer welcome) group
        → wait_for_conns welcome (text "1") (text "ch") group polls newcomer
          ≡ (ok none, record newcomer { calls = hello ∷ [] }))
    × ((seen : Peers) (after : List Peers)
        → All (IsPeer welcome) group
        → All (HasAcked seen) group
        → wait_for_conns welcome (text "1") (text "ch") group (polls ++ seen ∷ after) newcomer
          ≡ (ok (some tt), record newcomer { calls = hello ∷ hello ∷ [] }))
unfolding compress_hellos pack_hellos pack_entry pack connected lookup
wait_for_conns_ends_example =
    wait_for_conns_ends welcome (text "ch") [] group refl (text "1") (((bob, true) ∷ []) ∷ [])
      newcomer refl (alice_silent, tt)

-- The members of the group as peers that acknowledged.
group_peers : All (IsPeer welcome) group
group_peers = ((some_peer, refl), ((some_peer, refl), tt))

group_acked : All (HasAcked ((alice, true) ∷ (bob, true) ∷ [])) group
unfolding lookup
group_acked = ((λ e. cc), ((λ e. cc), tt))

wait-acked :
    (wait_for_conns welcome
      (text "1")
      (text "ch")
      group
      (((bob, true) ∷ []) ∷ ((alice, true) ∷ (bob, true) ∷ []) ∷ [])
      newcomer).0
    ≡ ok (some tt)
unfolding compress_hellos pack_hellos pack_entry pack
wait-acked =
    rw
      ((wait_for_conns_ends welcome (text "ch") [] group refl (text "1") (((bob, true) ∷ []) ∷ [])
          newcomer refl (alice_silent, tt)).2
        ((alice, true) ∷ (bob, true) ∷ []) [] group_peers group_acked)
      refl
