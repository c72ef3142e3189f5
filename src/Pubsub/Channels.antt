-- ===== src/Pubsub/Channels.antt =====
-- The internal channel functions of pubsub/processor.go: a message to the transport's goroutines,
-- and the wait for their replies. The replies' ids and channels are not part of the call.
use zero_comm.Prelude.{Text, Bool, true, false, ◌∷◌, if◌then◌else◌, ◌≡◌, ok}
use zero_comm.Prelude.Method.{Method, ◌>>◌, lift}
use zero_comm.Domain.{Member, Role}
use zero_comm.Pubsub.Node.{
  Outside, Node, Call, publish_call, connect_call, subscribe_call, auth_call, call,
}

-- Neither listener replies with an error.
abbrev pub Replies : Outside → Type 0
Replies o = (c : Call) → (o.state_reply c ≡ ok tt) × (o.data_reply c ≡ ok tt)

module _ (o : Outside) where
  -- the message, then the state listener's reply, then the data listener's
  abbrev pub both_reply : Call → Method Node (Unit {0})
  both_reply c n =
      (do lift (o.state_reply c); lift (o.data_reply c)) (record n { calls = c ∷ n.calls })

  abbrev pub send_publish : Text → Text → Method Node (Unit {0})
  send_publish topic content = call o (publish_call topic content)

  abbrev pub send_connect : Bool → Role → Text → Text → Member → Method Node (Unit {0})
  send_connect connect init_role init_label topic m =
      both_reply (connect_call connect init_role init_label topic m)

  abbrev pub send_subscribe :
      Bool → Bool → Bool → Bool → Text → Text → Member → Method Node (Unit {0})
  send_subscribe subscribe unsub_all state data_side topic label m =
      both_reply (subscribe_call subscribe unsub_all state data_side topic label m)

  abbrev pub send_auth : Text → Text → Text → Bool → Method Node (Unit {0})
  send_auth label srvr_pub_k client_pub_k publisher =
      both_reply (auth_call label srvr_pub_k client_pub_k (if publisher then true else false))
