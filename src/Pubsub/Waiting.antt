-- ===== src/Pubsub/Waiting.antt =====
-- waitForConns of pubsub/agent.go. It looks at the peers and at the acknowledged endpoints until all
-- are there. The answers of the prober are those at the end of its first loop, if this ends; `polls`
-- are the acknowledged endpoints after each publication. The result `none` means that it still waits
-- after these.
pub mod Ends
use zero_comm.Prelude.{
  Text, Bool, true, false, List, [], ◌∷◌, Option, none, some, Result, ok, err, panic, if◌then◌else◌,
  ◌&&◌,
}
use zero_comm.Prelude.{◌>>=◌ as bind}
use zero_comm.Prelude.Dict.{Dict, insert}
use zero_comm.Prelude.Method.{Method, ◌>>=◌, ◌>>◌, lift, pure}
use zero_comm.Domain.{Member, Peer, Status, hello_prefix, hello_protocol_v1}
use zero_comm.Transport.Topics.{state_topic}
use zero_comm.Transport.Peers.{Peers, connected}
use zero_comm.Pubsub.Node.{Outside, Node}
use zero_comm.Pubsub.Channels.{send_publish}
use zero_comm.Pubsub.Agent.{pack_entry}

abbrev pub found : Result Peer → Bool
found (ok pr) = true
found (err e) = false
found panic = false

-- the last loop of a round
abbrev pub all_connected : Peers → List Member → Bool
all_connected seen [] = true
all_connected seen (m ∷ ms) = connected m.pub_endpoint seen && all_connected seen ms

module _ (o : Outside) where
  -- the loop checkPeer ends
  abbrev pub all_known : List Member → Bool
  all_known [] = true
  all_known (m ∷ ms) = found (o.peer_of m.label) && all_known ms

  unfoldable pub pack_hellos : List Member → Dict Text → Result (Dict Text)
  pack_hellos [] msgs = ok msgs
  pack_hellos (m ∷ ms) msgs =
      bind (pack_entry o m hello_prefix) (λ e. pack_hellos ms (insert e.0 e.1 msgs))

  unfoldable pub compress_hellos : Text → Text → List Member → Result Text
  compress_hellos id topic grp = bind (pack_hellos grp []) (λ msgs.
      bind
        (o.statuses.marshal
          (record { id = id; typ = hello_protocol_v1; topic = topic; auth_msgs = msgs }))
        (λ encoded_status. ok (o.encode_all encoded_status)))

  -- the rounds from the label retry on
  unfoldable pub greet : Text → Text → List Member → List Peers → Method Node (Option (Unit {0}))
  greet topic cmprsd grp [] n = (ok none, n)
  greet topic cmprsd grp (seen ∷ polls) n =
      (do
        send_publish o (state_topic topic) cmprsd
        (if all_connected seen grp then pure (some tt) else greet topic cmprsd grp polls))
        n

  unfoldable pub wait_for_conns :
      Text → Text → List Member → List Peers → Method Node (Option (Unit {0}))
  wait_for_conns id topic grp polls =
      if all_known grp
      then (do cmprsd ← lift (compress_hellos id topic grp); greet topic cmprsd grp polls)
      else pure none
