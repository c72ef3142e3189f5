-- ===== src/Transport/Sockets.antt =====
-- The functions of pubsub/transport/zmq.go that connect and subscribe the two SUB sockets. The group
-- store is only read.
pub mod Subscriptions
use zero_comm.Prelude.{
  Text, Bool, true, false, not, List, [], ◌∷◌, Result, ok, err, panic, bad_role, ◌==◌, ltb, length,
  if◌then◌else◌, ◌||◌,
}
use zero_comm.Prelude.Method.{Method, ◌>>=◌, ◌>>◌, lift, pure, raise}
use zero_comm.Domain.{Member, Role, publisher_role, subscriber_role, null_role}
use zero_comm.Stores.Group.{Groups, membrs}
use zero_comm.Transport.Topics.{data_topic, state_topic}
use zero_comm.Transport.Messages.{ConnectMsg, Initiator}
use zero_comm.Transport.Auth.{Zmq}

unfoldable pub topic_exists : Groups → Text → Bool
unfolding membrs
topic_exists gs topic = if ltb (length (membrs topic gs)) 2 then false else true

-- The publisher and the subscriber of a connection.
abbrev pub ends : Initiator → Text → Result (Text × Text)
ends i peer = by_role i.role
  where
    by_role : Role → Result (Text × Text)
    by_role publisher_role = ok (i.label, peer)
    by_role subscriber_role = ok (peer, i.label)
    by_role null_role = err bad_role

module _ {S : Type 0} (z : Zmq S) (gs : Groups) where
  unfoldable pub subscribe_status : Text → Method S (Unit {0})
  unfolding topic_exists state_topic
  subscribe_status topic =
      if topic_exists gs topic then pure tt else z.set_subscribe (state_topic topic)

  unfoldable pub subscribe_data : Text → Text → Text → Method S (Unit {0})
  unfolding data_topic
  subscribe_data topic publ sub = do dt ← lift (data_topic gs topic publ sub); z.set_subscribe dt

  unfoldable pub connect_state : ConnectMsg → Method S (Unit {0})
  unfolding subscribe_status
  connect_state cm = do z.connect cm.peer.pub_endpoint; subscribe_status cm.topic

  unfoldable pub connect_data : ConnectMsg → Method S (Unit {0})
  unfolding subscribe_data
  connect_data cm =
      if cm.peer.publisher
      then (do
        z.connect cm.peer.pub_endpoint
        both ← lift (ends cm.initiator cm.peer.label)
        subscribe_data cm.topic both.0 both.1)
      else pure tt

  -- unsubscribeData
  unfoldable pub unsubscribe_data : Text → Text → Member → Method S (Unit {0})
  unfolding data_topic
  unsubscribe_data label topic m = do
    dt ← lift (data_topic gs topic m.label label)
    z.set_unsubscribe dt
    z.disconnect m.pub_endpoint

  -- The loop of unsubscribeAllData, over the members that are left.
  pub unsubscribe_each : Text → Text → List Member → Method S (Unit {0})
  unfolding unsubscribe_data
  unsubscribe_each label topic [] = pure tt
  unsubscribe_each label topic (m ∷ ms) =
      if m.label == label || not m.publisher
      then unsubscribe_each label topic ms
      else (do unsubscribe_data label topic m; unsubscribe_each label topic ms)

  unfoldable pub unsubscribe_all_data : Text → Text → Method S (Unit {0})
  unfolding unsubscribe_each membrs
  unsubscribe_all_data label topic = unsubscribe_each label topic (membrs topic gs)

  pub disconnect_each : Text → List Member → Method S (Unit {0})
  disconnect_each label [] = pure tt
  disconnect_each label (m ∷ ms) =
      if m.label == label
      then disconnect_each label ms
      else (do z.disconnect m.pub_endpoint; disconnect_each label ms)

  unfoldable pub unsubscribe_state : Text → Text → Method S (Unit {0})
  unfolding state_topic disconnect_each membrs
  unsubscribe_state label topic = do
    z.set_unsubscribe (state_topic topic)
    disconnect_each label (membrs topic gs)

  abbrev pub disconnect_status : Text → Method S (Unit {0})
  disconnect_status endpoint = z.disconnect endpoint
