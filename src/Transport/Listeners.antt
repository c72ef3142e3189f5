-- ===== src/Transport/Listeners.antt =====
-- listenState and listenData of pubsub/transport/zmq.go: the loop bodies, as one step for each
-- message that is received, and the channels of the replies.
pub mod Replies
pub mod Closing
use zero_comm.Prelude.{
  ℕ, Text, Bool, true, false, not, List, [], ◌∷◌, Option, none, some, Result, ok, err, panic, ◌==◌,
  Error, unmarshalling, receiving, decoding, if◌then◌else◌, ◌&&◌, eqb,
}
use zero_comm.Prelude.Dict.{Dict, lookup, insert}
use zero_comm.Prelude.Method.{Method, pure}
use zero_comm.Stores.Group.{Groups}
use zero_comm.Transport.Messages.{
  ConnectMsg, SubscribeMsg, AuthMsg, topic_connect, topic_subscribe, topic_authenticate, topic_term,
}
use zero_comm.Transport.Auth.{Zmq, Side, on_zmq, set_peer_state_authn, set_peer_data_authn}
use zero_comm.Transport.Sockets.{
  connect_state, connect_data, unsubscribe_data, unsubscribe_all_data, unsubscribe_state,
  disconnect_status,
}

-- What a listener does with a message: a value sent on the channel of a reply, a send on a nil
-- channel, from which a listener does not return, a line in the log, a call of the handler in a
-- goroutine of its own, a closed socket, or a panic.
pub data Reaction : Type 0 where
  replied : Text → Option Error → Reaction
  stuck : Reaction
  logged : Error → Reaction
  handled : Text → Text → Reaction
  closed : Reaction
  crashed : Reaction

abbrev set_chan : Text → Text → Dict Text → Dict Text
set_chan [] c chans = chans
set_chan (b ∷ id) c chans = insert (b ∷ id) c chans

-- addRepChan
unfoldable pub add_rep_chan : Text → Text → Text → Text → Dict Text → Dict Text
add_rep_chan state_id data_id state_chan data_chan chans =
    set_chan data_id data_chan (set_chan state_id state_chan chans)

-- replyErr
unfoldable pub reply_err : Dict Text → Text → Option Error → Reaction
reply_err chans id e = elim (lookup id chans) [ none ↦ stuck | some c ↦ replied c e ]

abbrev pub space : ℕ
space = b' '

abbrev more : ℕ → Option (Text × Text) → Option (Text × Text)
more c none = none
more c (some (t, d)) = some (c ∷ t, d)

-- strings.SplitN(msg, " ", 2), where there are two parts
unfoldable pub frames : Text → Option (Text × Text)
frames [] = none
frames (c ∷ s) = let rest = frames s in if eqb c space then some ([], s) else more c rest

-- json.Unmarshal into a message: where it fails, `left` is the reply id that the struct has then.
pub record Reader (A : Type 0) : Type 0 where
  pub read : Text → Result A
  pub left : Text → Text

pub record Readers : Type 0 where
  pub connects : Reader ConnectMsg
  pub subscribes : Reader SubscribeMsg
  pub auths : Reader AuthMsg

module _ {S : Type 0} (z : Zmq S) (gs : Groups) (chans : Dict Text) (js : Readers) where
  -- The end of a branch: the result of the call goes to the channel of the message.
  abbrev pub answer : Text → Result (Unit {0}) × Side S → Reaction × Side S
  answer id (ok u, a) = (reply_err chans id none, a)
  answer id (err e, a) = (reply_err chans id (some e), a)
  answer id (panic, a) = (crashed, a)

  -- The messages that were decoded, by the state listener
  unfoldable pub state_connect : ConnectMsg → Side S → Reaction × Side S
  unfolding reply_err connect_state
  state_connect cm a = answer cm.reply.state.id (
      if cm.connect
      then on_zmq (connect_state z gs cm) a
      else on_zmq (disconnect_status z gs cm.peer.pub_endpoint) a)

  unfoldable pub state_subscribe : SubscribeMsg → Side S → Reaction × Side S
  unfolding reply_err unsubscribe_state
  state_subscribe sm a = answer sm.reply.state.id (
      if not sm.state
      then (ok tt, a)
      else if not sm.subscribe
      then on_zmq (unsubscribe_state z gs sm.my_label sm.topic) a
      else (ok tt, a))

  unfoldable pub state_auth : AuthMsg → Side S → Reaction × Side S
  unfolding reply_err set_peer_state_authn
  state_auth am a =
      answer am.reply.state.id
        (set_peer_state_authn z am.label am.servr_pub_key am.client_pub_key a)

  -- and by the data listener
  unfoldable pub data_connect : ConnectMsg → Side S → Reaction × Side S
  unfolding reply_err connect_data
  data_connect cm a =
      answer cm.reply.data_side.id
        (if cm.connect then on_zmq (connect_data z gs cm) a else (ok tt, a))

  unfoldable pub data_subscribe : SubscribeMsg → Side S → Reaction × Side S
  unfolding reply_err unsubscribe_all_data unsubscribe_data
  data_subscribe sm a = answer sm.reply.data_side.id (
      if sm.subscribe
      then (ok tt, a)
      else if sm.unsub_all && sm.data_side
      then on_zmq (unsubscribe_all_data z gs sm.my_label sm.topic) a
      else if sm.data_side
      then on_zmq (unsubscribe_data z gs sm.my_label sm.topic sm.peer) a
      else (ok tt, a))

  unfoldable pub data_auth : AuthMsg → Side S → Reaction × Side S
  unfolding reply_err set_peer_data_authn
  data_auth am a =
      answer am.reply.data_side.id
        (if am.data_side then set_peer_data_authn z am.servr_pub_key a else (ok tt, a))

  -- A message is decoded first; a struct that could not be filled is answered too.
  abbrev pub on_read :
      {A : Type 0} → Result A → Text → (A → Side S → Reaction × Side S) → Side S → Reaction × Side S
  on_read (ok m) left f a = f m a
  on_read (err e) left f a = (reply_err chans left (some unmarshalling), a)
  on_read panic left f a = (crashed, a)

  abbrev pub decoded :
      {A : Type 0} → Reader A → (A → Side S → Reaction × Side S) → Text → Side S → Reaction × Side S
  decoded r f t = on_read (r.read t) (r.left t) f

  abbrev close_side : Result (Unit {0}) × Side S → Reaction × Side S
  close_side (ok u, a) = (closed, a)
  close_side (err e, a) = (logged e, a)
  close_side (panic, a) = (crashed, a)

  -- The tests on the topic, which both listeners make.
  abbrev pub dispatch :
      (ConnectMsg → Side S → Reaction × Side S)
      → (SubscribeMsg → Side S → Reaction × Side S)
      → (AuthMsg → Side S → Reaction × Side S)
      → Text
      → Text
      → Side S
      → Reaction × Side S
  dispatch connects subscribes auths topic content a =
      if topic == topic_connect
      then decoded js.connects connects content a
      else if topic == topic_subscribe
      then decoded js.subscribes subscribes content a
      else if topic == topic_authenticate
      then decoded js.auths auths content a
      else if topic == topic_term
      then close_side (on_zmq z.close a)
      else (handled topic content, a)

  abbrev pub on_frames :
      (Text → Text → Side S → Reaction × Side S) → Option (Text × Text) → Side S → Reaction × Side S
  on_frames f none a = (logged decoding, a)
  on_frames f (some p) a = f p.0 p.1 a

  abbrev pub received :
      (Text → Text → Side S → Reaction × Side S) → Result Text → Side S → Reaction × Side S
  received f (ok msg) a = on_frames f (frames msg) a
  received f (err e) a = (logged receiving, a)
  received f panic a = (crashed, a)

  -- listenState and listenData, with what Recv returns
  unfoldable pub listen_state : Result Text → Side S → Reaction × Side S
  unfolding frames state_connect state_subscribe state_auth
  listen_state = received (dispatch state_connect state_subscribe state_auth)

  unfoldable pub listen_data : Result Text → Side S → Reaction × Side S
  unfolding frames data_connect data_subscribe data_auth
  listen_data = received (dispatch data_connect data_subscribe data_auth)
