-- ===== src/Didcomm/Discovery.antt =====
-- didcomm/discovery/handler.go. The uuid is an argument, JSON a parameter; a client's response is an
-- argument too.
pub mod Wildcards
pub mod Answers
pub mod Examples
use zero_comm.Prelude.{
  ◌-◌, Text, text, Bool, List, [], ◌∷◌, Option, none, some, Result, ok, ◌>>=◌, Codec, length, take,
  drop, keep, first, ◌==◌, has_prefix, contains, if◌then◌else◌, not,
}
use zero_comm.Domain.{
  Feature, QueryFeature, DiscloseFeature, discover_feat_query, discover_feat_disclose,
}

abbrev pub domain_prefix : Text
domain_prefix = text "https://didcomm.org/"

-- the features of NewDiscoverer
abbrev pub own_features : List Feature
own_features =
    record {
      id = text "https://didcomm.org/out-of-band/1.0";
      roles = text "sender" ∷ text "receiver" ∷ [];
    }
    ∷ record {
      id = text "https://didcomm.org/didexchange/1.0";
      roles = text "inviter" ∷ text "invitee" ∷ [];
    }
    ∷ record {
      id = text "https://didcomm.org/pub-sub/1.0";
      roles = text "publisher" ∷ text "subscriber" ∷ [];
    }
    ∷ []

abbrev pub without_last : Text → Text
without_last q = take (length q - 1) q

abbrev pub ends_with_star : Text → Bool
ends_with_star q = drop (length q - 1) q == text "*"

abbrev pub as_list : Option Feature → List Feature
as_list none = []
as_list (some f) = f ∷ []

unfoldable pub process_query : List Feature → Text → List Feature
process_query features query =
    if query == []
    then features
    else if query == text "*"
    then features
    else if not (contains query domain_prefix)
    then []
    else if ends_with_star query
    then keep (λ f. has_prefix f.id (without_last query)) features
    else as_list (first (λ f. f.id == query) features)

unfoldable pub disclose : List Feature → Text → Text → DiscloseFeature
unfolding process_query
disclose features id query = record {
  typ = discover_feat_disclose;
  th_id = id;
  features = process_query features query;
}

pub record Queries : Type 0 where
  pub queries : Codec QueryFeature
  pub discloses : Codec DiscloseFeature

-- A round of listen: the bytes for the reply channel, or an error that is logged.
unfoldable pub listen : Queries → List Feature → Text → Result Text
unfolding disclose
listen j features bytes = do
  qm ← j.queries.unmarshal bytes
  j.discloses.marshal (disclose features qm.id qm.query)

-- Query, with what the client's Send gives for the message.
unfoldable pub query_features :
    Queries → Text → (Text → Result Text) → Text → Text → Result (List Feature)
query_features j id send query comment = do
  byts ←
      j.queries.marshal
        (record { typ = discover_feat_query; id = id; query = query; comment = comment })
  res ← send byts
  dm ← j.discloses.unmarshal res
  ok dm.features
