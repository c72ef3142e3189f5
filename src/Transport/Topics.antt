-- ===== src/Transport/Topics.antt =====
-- The topic names of pubsub/transport/zmq.go.
use zero_comm.Prelude.{
  ℕ, Text, text, List, [], ◌∷◌, ◌++◌, ◌≡◌, ◌≢◌, refl, sym, ap, ◌∙◌, arith, Result, ok, ◌>>=◌, ◌==◌,
  eq_iff, if◌then◌else◌, eqb, All,
}
use zero_comm.Domain.{topic_prefix, single_queue_mode}
use zero_comm.Stores.Group.{Groups, mode}

-- DataTopic, once the mode of the topic is known
abbrev pub data_topic_in : Text → Text → Text → Text → Text
data_topic_in m topic publ sub =
    if m == single_queue_mode
    then topic_prefix ++ (topic ++ text ":data")
    else topic_prefix ++ (topic ++ (text ":data:" ++ (publ ++ (text ":" ++ sub))))

unfoldable pub data_topic : Groups → Text → Text → Text → Result Text
unfolding mode
data_topic gs topic publ sub = do m ← mode topic gs; ok (data_topic_in m topic publ sub)

unfoldable pub state_topic : Text → Text
state_topic topic = topic_prefix ++ (topic ++ text ":state")

abbrev pub colon : ℕ
colon = b':'

abbrev prepend : ℕ → List Text → List Text
prepend c [] = (c ∷ []) ∷ []
prepend c (p ∷ ps) = (c ∷ p) ∷ ps

-- strings.Split(s, ":")
unfoldable pub split : Text → List Text
split [] = [] ∷ []
split (c ∷ s) = let rest = split s in if eqb c colon then [] ∷ rest else prepend c rest

abbrev third : List Text → Text
third (a ∷ b ∷ c ∷ ps) = c
third _ = []

-- A name of fewer than three parts gives the empty name.
unfoldable pub group_name_by_data_topic : Text → Text
unfolding split
group_name_by_data_topic topic = third (split topic)

abbrev pub NoColon : Text → Type 0
NoColon = All (λ c. c ≢ colon)

split-part : (s r : Text) → NoColon s → split (s ++ colon ∷ r) ≡ s ∷ split r
unfolding split
split-part [] r h = refl
split-part (c ∷ s) r h = ground (arith, split-part s r h.1, h.0)

group_name_of_parts :
    (topic rest : Text)
    → NoColon topic
    → group_name_by_data_topic (topic_prefix ++ (topic ++ colon ∷ rest)) ≡ topic
group_name_of_parts topic rest h =
    unfold group_name_by_data_topic in ground (arith, split-part topic rest h)

-- The group name that a subscriber reads off the topic of a data message is the group's, in both
-- modes and for all labels, if the group's name has no colon.
pub group_name-data_topic :
    (m topic publ sub : Text)
    → NoColon topic
    → group_name_by_data_topic (data_topic_in m topic publ sub) ≡ topic
group_name-data_topic m topic publ sub h = ground (
  arith,
  group_name_of_parts topic (text "data") h,
  group_name_of_parts topic (text "data:" ++ (publ ++ (text ":" ++ sub))) h,
)

split-last : (s : Text) → NoColon s → split s ≡ s ∷ []
unfolding split
split-last [] h = refl
split-last (c ∷ s) h = ground (arith, split-last s h.1, h.0)

data_topic_parts :
    (m topic publ sub : Text)
    → m ≢ single_queue_mode
    → NoColon topic
    → NoColon publ
    → NoColon sub
    → split (data_topic_in m topic publ sub)
      ≡ text "urn" ∷ text "didcomm-queue" ∷ topic ∷ text "data" ∷ publ ∷ sub ∷ []
unfolding split
data_topic_parts m topic publ sub k h i j = ground (
  arith,
  eq_iff m single_queue_mode,
  split-part topic (text "data:" ++ (publ ++ (text ":" ++ sub))) h,
  split-part publ sub i,
  split-last sub j,
)

-- With a queue for each pair of members, two pairs never share a topic, nor do two groups, if the
-- names have no colon.
pub data_topic_injective :
    (m topic publ sub t p q : Text)
    → m ≢ single_queue_mode
    → (NoColon topic × NoColon publ × NoColon sub)
    → (NoColon t × NoColon p × NoColon q)
    → data_topic_in m topic publ sub ≡ data_topic_in m t p q
    → (topic ≡ t) × (publ ≡ p) × (sub ≡ q)
data_topic_injective m topic publ sub t p q k h i e = cc_parts (
    sym (data_topic_parts m topic publ sub k h.0 h.1 h.2)
    ∙ ap split e
    ∙ data_topic_parts m t p q k i.0 i.1 i.2)
  where
    cc_parts :
        ◌≡◌ {A = List Text}
          (text "urn" ∷ text "didcomm-queue" ∷ topic ∷ text "data" ∷ publ ∷ sub ∷ [])
          (text "urn" ∷ text "didcomm-queue" ∷ t ∷ text "data" ∷ p ∷ q ∷ [])
        → (topic ≡ t) × (publ ≡ p) × (sub ≡ q)
    cc_parts e = (cc, cc, cc)

-- A state topic is never a data topic of the same group.
pub state_topic-ne-data_topic :
    (m topic publ sub : Text) → NoColon topic → state_topic topic ≢ data_topic_in m topic publ sub
unfolding state_topic split
state_topic-ne-data_topic m topic publ sub h e = ground (
  arith,
  ap split e,
  split-part topic (text "state") h,
  split-part topic (text "data") h,
  split-part topic (text "data:" ++ (publ ++ (text ":" ++ sub))) h,
)
