-- ===== src/Prober/Messaging.antt =====
-- SendMessage and ReadMessage of prober/agent.go.
pub mod Delivery
use zero_comm.Prelude.{
  ℕ, Text, text, List, [], ◌∷◌, ◌++◌, Result, ok, err, panic, eqb, if◌then◌else◌,
}
use zero_comm.Prelude.Method.{Method, ◌>>=◌, ◌>>◌, lift, pure}
use zero_comm.Domain.{Peer, Service, servc_message}
use zero_comm.Domain.MsgType.{Message, data_msg}
use zero_comm.Crypto.Keys.{public_key, private_key}
use zero_comm.Crypto.Packer.{Drawn, pack, unpack}
use zero_comm.Prober.Peers.{peer_by_label}
use zero_comm.Prober.Agent.{World, Prober, Client, ask_keys, post, print, info_by_servc}
use zero_comm.Prober.Recipient.{peer_by_msg}

-- Data messages are shown, the others only logged.
abbrev pub print_data : ℕ → Text → Method Prober (Unit {0})
print_data mt line = if eqb mt data_msg then print line else pure tt

module _ (w : World) where
  unfoldable pub send_message : Drawn → Client → ℕ → Text → Text → Method Prober (Unit {0})
  send_message drawn client mt to content p =
      (do
        peer ← lift (peer_by_label to p.peers)
        own_pub_key ← ask_keys (public_key to)
        own_prv_key ← ask_keys (private_key to)
        service ← lift (info_by_servc servc_message peer.services)
        msg ← lift (pack w.packing drawn content service.1 own_pub_key own_prv_key)
        bytes ← lift (w.packing.messages.marshal msg)
        post client mt bytes service.0
        print_data mt (text "Message sent"))
        p

  unfoldable pub read_message : Message → Method Prober (Text × Text)
  read_message msg p =
      (do
        peer_name ← lift (peer_by_msg w msg.payload p)
        own_pub_key ← ask_keys (public_key peer_name)
        own_prv_key ← ask_keys (private_key peer_name)
        text_bytes ← lift (unpack w.packing msg.payload own_pub_key own_prv_key)
        print_data msg.typ (text "Message received: '" ++ (text_bytes ++ text "'"))
        pure (peer_name, text_bytes))
        p
