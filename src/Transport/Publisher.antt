-- ===== src/Transport/Publisher.antt =====
-- initConnector, publisher and Close of pubsub/transport/zmq.go: one round of each loop. What is
-- sent is in the result; SendMessage and JSON are parameters.
pub mod Harmless
use zero_comm.Prelude.{
  Text, ◌∷◌, ◌++◌, Option, none, some, Result, ok, Error, sending, ◌==◌, if◌then◌else◌,
}
use zero_comm.Prelude.Dict.{Dict}
use zero_comm.Transport.Messages.{
  ConnectMsg, SubscribeMsg, AuthMsg, PublishMsg, Replies, topic_connect, topic_subscribe,
  topic_authenticate, topic_term,
}
use zero_comm.Transport.Listeners.{add_rep_chan, space}

-- fmt.Sprintf("%s %s", topic, data)
abbrev pub frame : Text → Text → Text
frame topic content = topic ++ space ∷ content

pub record Writers : Type 0 where
  pub connects : ConnectMsg → Result Text
  pub subscribes : SubscribeMsg → Result Text
  pub auths : AuthMsg → Result Text

-- What the internal publisher is asked to do.
pub data Request : Type 0 where
  connecting : ConnectMsg → Request
  subscribing : SubscribeMsg → Request
  authenticating : AuthMsg → Request
  closing : Request

abbrev register : Replies → Dict Text → Dict Text
unfolding add_rep_chan
register r chans = add_rep_chan r.state.id r.data_side.id r.state.chan r.data_side.chan chans

abbrev pub internal_frame : Text → Result Text → Option Text
internal_frame topic (ok content) = some (frame topic content)
internal_frame topic r = none

-- The frame that a round of initConnector sends to both listeners, `none` where the marshalling
-- failed, and the reply channels; what SendMessage and Close return is only logged.
unfoldable pub connector : Writers → Request → Dict Text → Option Text × Dict Text
unfolding add_rep_chan
connector w (connecting cm) chans =
    (internal_frame topic_connect (w.connects cm), register cm.reply chans)
connector w (subscribing sm) chans =
    (internal_frame topic_subscribe (w.subscribes sm), register sm.reply chans)
connector w (authenticating am) chans =
    (internal_frame topic_authenticate (w.auths am), register am.reply chans)
connector w closing chans = (some topic_authenticate, chans)

-- What a round of publisher does.
pub data Published : Type 0 where
  shut : Published
  sent : Text → Option Error → Published

unfoldable pub publish : PublishMsg → (Text → Result (Unit {0})) → Published
publish pm send_message =
    if pm.topic == topic_term then shut else outcome (send_message (frame pm.topic pm.content))
  where
    outcome : Result (Unit {0}) → Published
    outcome (ok u) = sent (frame pm.topic pm.content) none
    outcome r = sent (frame pm.topic pm.content) (some sending)
