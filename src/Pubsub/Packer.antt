-- ===== src/Pubsub/Packer.antt =====
-- pubsub/packer.go. The library's random values are those that a Pack with these arguments draws.
-- `none` is the nil key of a call without one. The other callers pass a key that base64 or base58
-- decoded, which is a slice that is not nil, also where it is empty.
use zero_comm.Prelude.{Text, Option, none, some, Result, ok}
use zero_comm.Prelude.{◌>>=◌}
use zero_comm.Domain.{servc_group_join}
use zero_comm.Pubsub.Node.{Outside}

module _ (o : Outside) where
  abbrev pub recipient_key : Text → Option Text → Result Text
  recipient_key receiver none = do s ← o.sync_service servc_group_join receiver; ok s.pub_key
  recipient_key receiver (some rec_pub_key) = ok rec_pub_key

  unfoldable pub pack : Text → Option Text → Text → Result Text
  pack receiver rec_pub_key msg = do
    key ← recipient_key receiver rec_pub_key
    own_pub_key ← o.public_key receiver
    own_prv_key ← o.private_key receiver
    encryptd_msg ← o.seal msg key own_pub_key own_prv_key
    o.envelopes.marshal encryptd_msg
