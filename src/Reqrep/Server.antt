-- ===== src/Reqrep/Server.antt =====
-- reqrep/zmq/server.go and definitions.go. A handler's channel is known by its name; what RecvMessage
-- returns and what a handler replies are arguments. A negative message type is read as one without a
-- handler.
use zero_comm.Prelude.{
  ℕ, Text, text, Bool, false, List, [], ◌∷◌, Option, none, some, Result, ok, err, panic, Error,
  receiving, decoding, unmarshalling, no_handler, ◌==◌, eqb, if◌then◌else◌,
}
use zero_comm.Domain.MsgType.{Message, terminate}

abbrev pub success_res : Text
success_res = text "success"

abbrev pub failed_res : Text
failed_res = text "failed"

pub record Handler : Type 0 where
  pub async : Bool
  pub notifier : Text

-- The keys of the sync.Map: handlers are stored under types, and deleted under strings.
pub data Key : Type 0 where
  of_type : ℕ → Key
  of_name : Text → Key

abbrev pub same_key : Key → Key → Bool
same_key (of_type a) (of_type b) = eqb a b
same_key (of_type a) (of_name t) = false
same_key (of_name s) (of_type b) = false
same_key (of_name s) (of_name t) = s == t

abbrev pub Handlers : Type 0
Handlers = List (Key × Handler)

unfoldable pub find : Key → Handlers → Option Handler
find k [] = none
find k ((j, h) ∷ hs) = if same_key j k then some h else find k hs

unfoldable pub store : Key → Handler → Handlers → Handlers
store k h [] = (k, h) ∷ []
store k h ((j, g) ∷ hs) = if same_key j k then (j, h) ∷ hs else (j, g) ∷ store k h hs

unfoldable pub discard : Key → Handlers → Handlers
discard k [] = []
discard k ((j, g) ∷ hs) = if same_key j k then discard k hs else (j, g) ∷ discard k hs

unfoldable pub add_handler : ℕ → Text → Bool → Handlers → Handlers
unfolding store
add_handler mt notifier async hs =
    store (of_type mt) (record { async = async; notifier = notifier }) hs

unfoldable pub remove_handler : Text → Handlers → Handlers
unfolding discard
remove_handler msg_type hs = discard (of_name msg_type) hs

unfoldable pub handlr_by_typ : ℕ → Handlers → Option Handler
unfolding find
handlr_by_typ msg_typ hs = find (of_type msg_typ) hs

-- A round of Start: the channel that got a message, and then the response that was sent; a server
-- that has stopped; or one that waits for a reply that its handler never sends.
pub data Served : Type 0 where
  responded : Option (Text × Message) → Text → Served
  stopped : Served
  waiting : Text × Message → Served

-- sendAck
abbrev pub ack : Option (Text × Message) → Option Error → Served
ack seen none = responded seen success_res
ack seen (some e) = responded seen failed_res

module _ (metadata : Text → Result ℕ) (reply : Message → Option Text) where
  abbrev pub sent_reply : Text × Message → Option Text → Served
  sent_reply seen none = waiting seen
  sent_reply seen (some r) = responded (some seen) r

  abbrev pub notify : Message → Option Handler → Served
  notify m none = ack none (some no_handler)
  notify m (some h) =
      if h.async then ack (some (h.notifier, m)) none else sent_reply (h.notifier, m) (reply m)

  abbrev pub by_type : Handlers → Text → Result ℕ → Served
  by_type hs content (ok t) =
      if eqb t terminate
      then stopped
      else notify (record { typ = t; payload = content }) (handlr_by_typ t hs)
  by_type hs content r = ack none (some unmarshalling)

  unfoldable pub start : Handlers → Result (List Text) → Served
  unfolding handlr_by_typ
  start hs (ok (meta ∷ content ∷ [])) = by_type hs content (metadata meta)
  start hs (ok []) = ack none (some decoding)
  start hs (ok (one ∷ [])) = ack none (some decoding)
  start hs (ok (a ∷ b ∷ c ∷ more)) = ack none (some decoding)
  start hs (err e) = ack none (some receiving)
  start hs panic = ack none (some receiving)
