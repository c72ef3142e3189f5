-- ===== src/Transport/Examples.antt =====
-- Tests of pubsub/transport, and its theorems at concrete names, messages and a stand-in for libzmq.
use zero_comm.Prelude.{
  ℕ, suc, ◌-◌, Text, text, true, false, List, [], ◌∷◌, none, some, ◌≡◌, ◌≢◌, ◌⊎◌, inl, refl, arith,
  ne_of_test, ok, err, unmarshalling, marshalling, no_transport_key, ◌==◌, eq_iff, if◌then◌else◌,
}
use zero_comm.Prelude.Dict.{lookup}
use zero_comm.Prelude.Method.{pure}
use zero_comm.Domain.{Member, single_queue_mode, multiple_queue_mode, subscriber_role}
use zero_comm.Stores.Group.{Groups, mode, membrs}
use zero_comm.Transport.Messages.{
  ConnectMsg, PublishMsg, Replies, topic_connect, topic_subscribe, topic_authenticate, topic_term,
}
use zero_comm.Transport.Auth.{Zmq, Side, started, on_zmq, set_peer_state_authn, remv_keys}
use zero_comm.Transport.Auth.Allowance.{remv_keys_after_set}
use zero_comm.Transport.Sockets.{unsubscribe_all_data, connect_data, ends}
use zero_comm.Transport.Sockets.Subscriptions.{
  Counts, departures, unsubscribe_all_data_takes, connect_data_adds,
}
use zero_comm.Transport.Listeners.{
  Readers, handled, closed, stuck, listen_state, listen_data, add_rep_chan,
}
use zero_comm.Transport.Listeners.Replies.{published_handled, undecodable_blocks}
use zero_comm.Transport.Listeners.Closing.{sent_never_closes}
use zero_comm.Transport.Publisher.{Writers, frame, closing, connector, publish, sent}
use zero_comm.Transport.Topics.{
  NoColon, data_topic_in, state_topic, group_name_by_data_topic, group_name-data_topic,
  data_topic_injective, state_topic-ne-data_topic,
}

abbrev chess : Text
chess = text "ch"

chess-NoColon : NoColon chess
chess-NoColon = omega arith

al-NoColon : NoColon (text "al")
al-NoColon = omega arith

bo-NoColon : NoColon (text "bo")
bo-NoColon = omega arith

group_name-data_topic_example :
    group_name_by_data_topic (data_topic_in multiple_queue_mode chess (text "al") (text "bo"))
    ≡ chess
group_name-data_topic_example =
    group_name-data_topic multiple_queue_mode chess (text "al") (text "bo") chess-NoColon

data_topic_injective_example : (chess ≡ chess) × (text "al" ≡ text "al") × (text "bo" ≡ text "bo")
data_topic_injective_example =
    data_topic_injective multiple_queue_mode chess (text "al") (text "bo") chess (text "al")
      (text "bo") (ne_of_test multiple_queue_mode single_queue_mode refl)
      (chess-NoColon, al-NoColon, bo-NoColon) (chess-NoColon, al-NoColon, bo-NoColon) refl

state_topic-ne-data_topic_example :
    state_topic chess ≢ data_topic_in multiple_queue_mode chess (text "al") (text "bo")
state_topic-ne-data_topic_example =
    state_topic-ne-data_topic multiple_queue_mode chess (text "al") (text "bo") chess-NoColon

-- A name with a colon is cut at the colon.
colon_cuts_name :
    group_name_by_data_topic (data_topic_in single_queue_mode (text "a:b") [] []) ≡ text "a"
unfolding group_name_by_data_topic
colon_cuts_name = refl

-- A stand-in for libzmq whose state is the list of the filters.
abbrev filters : Text → List Text → ℕ
filters u [] = 0
filters u (t ∷ ts) = let rest = filters u ts in if t == u then suc rest else rest

abbrev take_out : Text → List Text → List Text
take_out u [] = []
take_out u (t ∷ ts) = if t == u then ts else t ∷ take_out u ts

filters-take_out :
    (t u : Text) (s : List Text)
    → filters u (take_out t s) ≡ (if t == u then filters u s - 1 else filters u s)
filters-take_out t u [] = ground arith
filters-take_out t u (v ∷ s) =
    ground (arith, eq_iff t u, eq_iff v t, eq_iff v u, filters-take_out t u s)

abbrev sample : Zmq (List Text)
sample = record {
  auth_start = pure started;
  set_identity = λ i. pure tt;
  server_auth_curve = λ d k. pure tt;
  client_auth_curve = λ k p q. pure tt;
  auth_curve_add = λ d k s. s;
  auth_curve_remove = λ d k s. s;
  connect = λ e. pure tt;
  disconnect = λ e. pure tt;
  set_subscribe = λ t s. (ok tt, t ∷ s);
  set_unsubscribe = λ t s. (ok tt, take_out t s);
  close = pure tt;
}

sample-Counts : Counts sample filters
sample-Counts = record {
  adds = λ t u s e. refl;
  takes = λ t u s e. filters-take_out t u s;
  connect_keeps = λ e u s. refl;
  disconnect_keeps = λ e u s. refl;
}

abbrev bo_member : Member
bo_member = record {
  active = true;
  publisher = true;
  label = text "bo";
  inv = [];
  pub_endpoint = text "tcp";
}

abbrev one_group : Groups
one_group =
    (
      chess,
      record {
        topic = chess;
        checksum = [];
        members = some ((text "bo", bo_member) ∷ []);
        group_params =
            some (record {
              order_enabled = false;
              join_consistent = false;
              mode = multiple_queue_mode;
            });
        last_updated = 0;
      },
    )
    ∷ []

one_group-mode : mode chess one_group ≡ ok multiple_queue_mode
unfolding mode lookup
one_group-mode = refl

abbrev bo_data : Text
bo_data = data_topic_in multiple_queue_mode chess (text "bo") (text "al")

unsubscribe_all_data_takes_example :
    filters bo_data (unsubscribe_all_data sample one_group (text "al") chess (bo_data ∷ [])).1
    ≡ filters bo_data (bo_data ∷ [])
      - departures multiple_queue_mode chess (text "al") bo_data (membrs chess one_group)
unfolding unsubscribe_all_data mode lookup membrs
unsubscribe_all_data_takes_example =
    unsubscribe_all_data_takes sample filters sample-Counts one_group multiple_queue_mode chess
      one_group-mode (text "al") bo_data (bo_data ∷ []) refl

abbrev both_replies : Replies
both_replies = record {
  state = record { id = text "1"; chan = text "s" };
  data_side = record { id = text "2"; chan = text "d" };
}

abbrev to_bo : ConnectMsg
to_bo = record {
  connect = true;
  initiator = record { role = subscriber_role; label = text "al" };
  topic = chess;
  peer = bo_member;
  reply = both_replies;
}

connect_data_adds_example :
    ((bo_member.publisher ≡ false)
      × (filters bo_data (connect_data sample one_group to_bo []).1 ≡ filters bo_data []))
    ⊎ ((both : Text × Text) × (ends to_bo.initiator (text "bo") ≡ ok both)
        × (filters bo_data (connect_data sample one_group to_bo []).1 ≡ (
            if data_topic_in multiple_queue_mode chess both.0 both.1 == bo_data
            then suc (filters bo_data [])
            else filters bo_data [])))
unfolding connect_data mode lookup
connect_data_adds_example =
    connect_data_adds sample filters sample-Counts one_group multiple_queue_mode to_bo bo_data []
      one_group-mode refl

abbrev readers : Readers
readers = record {
  connects = record {
    read = λ t. if t == text "m" then ok to_bo else err unmarshalling;
    left = λ t. [];
  };
  subscribes = record { read = λ t. err unmarshalling; left = λ t. [] };
  auths = record { read = λ t. err unmarshalling; left = λ t. [] };
}

abbrev writers : Writers
writers = record {
  connects = λ m. ok (text "m");
  subscribes = λ m. err marshalling;
  auths = λ m. err marshalling;
}

abbrev side : Side (List Text)
side = record {
  zmq = [];
  auth = record {
    id = text "al";
    servr = record { public = []; prvt = [] };
    client = record { public = []; prvt = [] };
    keys = [];
  };
}

abbrev greeting : PublishMsg
greeting = record { topic = text "t"; content = text "hi"; reply = record { id = []; chan = [] } }

published_handled_example :
    (msg : Text) × (publish greeting (λ m. ok tt) ≡ sent msg none)
    × (listen_state sample one_group [] readers (ok msg) side
        ≡ (handled (text "t") (text "hi"), side))
    × (listen_data sample one_group [] readers (ok msg) side
        ≡ (handled (text "t") (text "hi"), side))
published_handled_example =
    published_handled sample one_group readers [] greeting (λ m. ok tt) side (omega arith)
      (
        ne_of_test (text "t") topic_connect refl,
        (
          ne_of_test (text "t") topic_subscribe refl,
          (
            ne_of_test (text "t") topic_authenticate refl,
            (ne_of_test (text "t") topic_term refl, tt),
          ),
        ),
      )
      refl

sent_never_closes_example :
    ((listen_state sample one_group [] readers (ok topic_authenticate) side).0 ≢ closed)
    × ((listen_data sample one_group [] readers (ok topic_authenticate) side).0 ≢ closed)
    × ((content : Text) (c : Side (List Text))
        → (on_zmq sample.close c).0 ≡ ok tt
        → ((listen_state sample one_group [] readers (ok (frame topic_term content)) c).0 ≡ closed)
          × ((listen_data sample one_group [] readers (ok (frame topic_term content)) c).0
              ≡ closed))
unfolding connector
sent_never_closes_example =
    sent_never_closes sample one_group [] readers topic_authenticate side side
      (inl (writers, closing, [], refl))

undecodable_blocks_example :
    listen_state sample one_group
      (add_rep_chan (text "1") (text "2") (text "s") (text "d") [])
      readers
      (ok (frame topic_connect (text "x")))
      side
    ≡ (stuck, side)
unfolding lookup
undecodable_blocks_example =
    undecodable_blocks sample one_group readers (text "1") (text "2") (text "s") (text "d") []
      (text "x") unmarshalling side refl refl refl

remv_keys_after_set_example :
    let set = (set_peer_state_authn sample (text "bo") (text "ps") (text "pc") side).1 in
    let removed = remv_keys sample (text "bo") set in
    (removed.0 ≡ ok tt)
    × (removed.1.zmq ≡ [])
    × (lookup (text "bo") removed.1.auth.keys ≡ none)
    × ((remv_keys sample (text "bo") removed.1).0 ≡ err no_transport_key)
unfolding set_peer_state_authn
remv_keys_after_set_example =
    remv_keys_after_set sample (text "bo") (text "ps") (text "pc") (text "bo") side refl
