-- ===== src/Prober/Recipient.antt =====
-- peerByMsg of prober/agent.go.
use zero_comm.Prelude.{Text, List, [], ◌∷◌, Result, ok, panic, ◌>>=◌}
use zero_comm.Prelude.Base64.{decode, std}
use zero_comm.Domain.{Recipient}
use zero_comm.Crypto.Keys.{peer}
use zero_comm.Prober.Agent.{World, Prober}

-- The index 0 of the recipients is not tested.
abbrev pub kid_of : List Recipient → Result Text
kid_of [] = panic
kid_of (r ∷ rs) = ok r.header.kid

-- The key under which a message was sealed, from its protected header.
unfoldable pub recipient_key : World → Text → Result Text
recipient_key w bytes = do
  msg ← w.packing.messages.unmarshal bytes
  decoded_val ← decode std msg.protected
  payload ← w.packing.payloads.unmarshal decoded_val
  kid ← kid_of payload.recipients
  ok (w.base58_decode kid)

module _ (w : World) where
  -- peerByMsg
  unfoldable pub peer_by_msg : Text → Prober → Result Text
  peer_by_msg bytes p = do key ← recipient_key w bytes; peer key p.ks
