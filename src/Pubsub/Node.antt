-- ===== src/Pubsub/Node.antt =====
-- The state that pubsub/agent.go and the handlers of pubsub/processor.go share, and what they reach outside it. A call of
-- the prober or of the transport is a `Call` in the trace `calls`, the last one first; its outcome is
-- given by `Outside`, since those components have states of their own.
use zero_comm.Prelude.{ℕ, Text, Bool, List, ◌∷◌, Result, Codec}
use zero_comm.Prelude.Dict.{Dict}
use zero_comm.Prelude.Method.{Method, modify}
use zero_comm.Domain.{
  Member, Peer, Service, Role, Status, AuthCryptMsg, ReqGroupJoin, ResGroupJoin, Subscribe,
  ResSubscribe,
}
use zero_comm.Validator.{Digest}
use zero_comm.Stores.Group.{Groups}
use zero_comm.Stores.Subscriber.{Subscribers}
use zero_comm.Syncer.{Syncer, MsgCodec}

pub data Call : Type 0 where
  connect_call : Bool → Role → Text → Text → Member → Call
  subscribe_call : Bool → Bool → Bool → Bool → Text → Text → Member → Call
  auth_call : Text → Text → Text → Bool → Call
  remv_keys_call : Text → Call
  message_call : ℕ → Text → Text → Call
  pack_call : Text → Text → Call
  reply_call : Text → Call
  publish_call : Text → Text → Call
  accept_call : Text → Call
  request_call : ℕ → Text → Text → Call

pub record Outside : Type 0 where
  pub digest : Digest
  pub clocks : MsgCodec
  pub read_message : ℕ → Text → Result (Text × Text)
  pub valid_conn : Text → Bool
  -- the outcome of a call that returns an error or nil
  pub outcome : Call → Result (Unit {0})
  -- the replies of the two listeners to a message on an internal channel
  pub state_reply : Call → Result (Unit {0})
  pub data_reply : Call → Result (Unit {0})
  -- Pack of crypto/packer.go, with its input and keys
  pub seal : Text → Text → Text → Text → Result AuthCryptMsg
  pub envelopes : Codec AuthCryptMsg
  -- Invite, Peer, Service and SyncService of the prober, PublicKey and PrivateKey of the key manager
  pub invite : Result Text
  pub peer_of : Text → Result Peer
  pub service : Text → Text → Result Service
  pub sync_service : Text → Text → Result Service
  pub public_key : Text → Result Text
  pub private_key : Text → Result Text
  -- the response to a message that the client sends
  pub respond : ℕ → Text → Text → Result Text
  -- the value of `oob` in the query of an invitation's URL
  pub oob_of : Text → Result Text
  pub encode_all : Text → Text
  pub base58_encode : Text → Text
  -- zDecodr.DecodeAll
  pub decode_all : Text → Result Text
  pub base58_decode : Text → Text
  pub statuses : Codec Status
  pub members : Codec Member
  pub subscribes : Codec Subscribe
  pub sub_responses : Codec ResSubscribe
  pub join_requests : Codec ReqGroupJoin
  pub join_responses : Codec ResGroupJoin

pub record Node : Type 0 where
  pub my_label : Text
  pub pub_endpoint : Text
  pub servr_pub_key : Text
  pub client_pub_key : Text
  pub gs : Groups
  pub subs : Subscribers
  pub syncr : Syncer
  pub invs : Dict Text
  pub ack_chans : Dict Text
  -- what was sent on the channels of ackChans
  pub acked : List (Text × Text)
  pub calls : List Call
  pub out : List Text

abbrev pub call : Outside → Call → Method Node (Unit {0})
call o c n = (o.outcome c, record n { calls = c ∷ n.calls })

abbrev pub print : Text → Method Node (Unit {0})
print line = modify (λ n. record n { out = line ∷ n.out })

abbrev pub on_groups : {A : Type 0} → Method Groups A → Method Node A
on_groups f n = ((f n.gs).0, record n { gs = (f n.gs).1 })

abbrev pub ask_groups : {A : Type 0} → (Groups → Result A) → Method Node A
ask_groups f n = (f n.gs, n)

abbrev pub on_syncer : {A : Type 0} → Method Syncer A → Method Node A
on_syncer f n = ((f n.syncr).0, record n { syncr = (f n.syncr).1 })
