-- ===== src/Didcomm/Discovery/Examples.antt =====
-- The theorem of the queries at the features of an agent, with a stand-in for JSON.
use mathlib.Core.List.{Memᴰ}
use zero_comm.Prelude.{
  Text, text, List, [], ◌∷◌, ◌≡◌, refl, Result, ok, err, unmarshalling, RoundTrips, ap, ◌∙◌,
}
use zero_comm.Samples.{unfields-unseal}
use zero_comm.Domain.{QueryFeature, DiscloseFeature, Feature}
use zero_comm.Didcomm.Discovery.{Queries, own_features, listen, query_features}
use zero_comm.Didcomm.Discovery.Answers.{query-listen, Selects}
use zero_comm.Didcomm.Examples.{pack_texts, unpack_texts}

abbrev read_query : List Text → Result QueryFeature
read_query (a ∷ b ∷ c ∷ d ∷ []) = ok (record { typ = a; id = b; query = c; comment = d })
read_query _ = err unmarshalling

abbrev feature_texts : List Feature → List Text
feature_texts [] = []
feature_texts (f ∷ fs) = f.id ∷ pack_texts f.roles ∷ feature_texts fs

abbrev read_features : List Text → List Feature
read_features (a ∷ b ∷ ts) = record { id = a; roles = unpack_texts b } ∷ read_features ts
read_features _ = []

read-features : (fs : List Feature) → read_features (feature_texts fs) ≡ fs
read-features [] = refl
read-features (f ∷ fs) = rw (unfields-unseal f.roles, read-features fs) refl

abbrev read_disclose : List Text → Result DiscloseFeature
read_disclose (a ∷ b ∷ ts) = ok (record { typ = a; th_id = b; features = read_features ts })
read_disclose _ = err unmarshalling

abbrev discovery : Queries
discovery = record {
  queries = record {
    marshal = λ q. ok (pack_texts (q.typ ∷ q.id ∷ q.query ∷ q.comment ∷ []));
    unmarshal = λ t. read_query (unpack_texts t);
  };
  discloses = record {
    marshal = λ d. ok (pack_texts (d.typ ∷ d.th_id ∷ feature_texts d.features));
    unmarshal = λ t. read_disclose (unpack_texts t);
  };
}

queries-RoundTrips : RoundTrips discovery.queries
queries-RoundTrips = record {
  trips = λ q. (
    pack_texts (q.typ ∷ q.id ∷ q.query ∷ q.comment ∷ []),
    refl,
    ap read_query (unfields-unseal (q.typ ∷ q.id ∷ q.query ∷ q.comment ∷ [])),
  );
}

discloses-RoundTrips : RoundTrips discovery.discloses
discloses-RoundTrips = record {
  trips = λ d. (
    pack_texts (d.typ ∷ d.th_id ∷ feature_texts d.features),
    refl,
    ap read_disclose (unfields-unseal (d.typ ∷ d.th_id ∷ feature_texts d.features))
        ∙ ap (λ fs. ok (record { typ = d.typ; th_id = d.th_id; features = fs }))
            (read-features d.features),
  );
}

-- The features whose id starts with out-of-band
abbrev out_of_band : Text
out_of_band = text "https://didcomm.org/out-of-band/*"

query-listen_example :
    (fs : List Feature) × (query_features discovery
        (text "1")
        (listen discovery own_features)
        out_of_band
        []
      ≡ ok fs)
    × ((f : Feature) → Memᴰ f fs → Memᴰ f own_features × Selects out_of_band f)
    × ((f : Feature)
        → Memᴰ f own_features
        → Selects out_of_band f
        → (g : Feature) × Memᴰ g fs × (g.id ≡ f.id))
query-listen_example =
    query-listen discovery own_features (text "1") out_of_band [] queries-RoundTrips
      discloses-RoundTrips
