-- ===== src/Transport/Messages.antt =====
-- pubsub/transport/messages.go and definitions.go. A channel is known by its name.
use zero_comm.Prelude.{Text, text, Bool, List, [], ◌∷◌}
use zero_comm.Domain.{Member, Role}

abbrev pub topic_connect : Text
topic_connect = text "internal-connect"

abbrev pub topic_subscribe : Text
topic_subscribe = text "internal-subscribe"

abbrev pub topic_authenticate : Text
topic_authenticate = text "internal-authenticate"

abbrev pub topic_term : Text
topic_term = text "internal-terminate"

abbrev pub internal_topics : List Text
internal_topics = topic_connect ∷ topic_subscribe ∷ topic_authenticate ∷ topic_term ∷ []

pub record Initiator : Type 0 where
  pub role : Role
  pub label : Text

pub record Reply : Type 0 where
  pub id : Text
  pub chan : Text

-- the two replies of a message, of the state listener and of the data listener
pub record Replies : Type 0 where
  pub state : Reply
  pub data_side : Reply

pub record ConnectMsg : Type 0 where
  pub connect : Bool
  pub initiator : Initiator
  pub topic : Text
  pub peer : Member
  pub reply : Replies

pub record PublishMsg : Type 0 where
  pub topic : Text
  pub content : Text
  pub reply : Reply

pub record SubscribeMsg : Type 0 where
  pub subscribe : Bool
  pub unsub_all : Bool
  pub my_label : Text
  pub topic : Text
  pub state : Bool
  pub data_side : Bool
  pub peer : Member
  pub reply : Replies

pub record AuthMsg : Type 0 where
  pub label : Text
  pub servr_pub_key : Text
  pub client_pub_key : Text
  pub data_side : Bool
  pub reply : Replies
