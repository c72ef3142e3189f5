-- ===== src/Didcomm/Invitation.antt =====
-- didcomm/invitation/handler.go. The uuid is an argument, JSON a parameter.
use zero_comm.Prelude.{
  ◌-◌, Text, text, List, [], ◌∷◌, ◌++◌, Result, ok, err, no_inv_service, no_inv_key, ◌>>=◌, Codec,
  length, replicate,
}
use zero_comm.Prelude.Buffer.{trim}
use zero_comm.Prelude.Base64.{encode, decode, std, url}
use zero_comm.Domain.{Invitation, DocService, DidDocument, oob_invitation_v1}

unfoldable pub create_inv : Codec Invitation → Text → Text → Text → Text → DidDocument → Result Text
create_inv c inv_endpoint id label did did_doc = do
  byts ← c.marshal (record {
    id = id;
    typ = oob_invitation_v1;
    from = did;
    label = label;
    goal_code = [];
    goal = [];
    accept = [];
    services = did_doc.service;
  })
  ok (inv_endpoint ++ (text "?oob=" ++ encode url byts))

-- The first service with a recipient key: its endpoint and this key.
unfoldable pub inviter : List DocService → Result (Text × Text)
inviter [] = err no_inv_key
inviter (s ∷ ss) = by_key s s.recipient_keys (inviter ss)
  where
    by_key : DocService → List Text → Result (Text × Text) → Result (Text × Text)
    by_key s [] others = others
    by_key s (k ∷ ks) others = do pub_key ← decode std k; ok (s.service_endpoint, pub_key)

abbrev inviter_of : Invitation → List DocService → Result (Text × Text)
inviter_of inv [] = err no_inv_service
inviter_of inv (s ∷ ss) = inviter (s ∷ ss)

-- The decoded bytes stand in a buffer of the length of the text; the invitation, the endpoint and
-- the key come back.
unfoldable pub parse_inv : Codec Invitation → Text → Result (Invitation × Text × Text)
unfolding trim inviter
parse_inv c enc_inv = do
  byts ← decode url enc_inv
  inv ← c.unmarshal (trim (byts ++ replicate (length enc_inv - length byts) 0))
  found ← inviter_of inv inv.services
  ok (inv, found.0, found.1)
