-- ===== src/Stores/Examples.antt =====
-- Tests of pubsub/stores/subscriber.go, and its theorems at a concrete store.
use zero_comm.Prelude.{text, [], ◌∷◌, none, some, ◌≡◌, err, no_topic}
use zero_comm.Stores.Subscriber.{
  Subscribers, add, remove, delete_topic, query_by_topic, key_of, key_of-add, key_of-remove,
  query_by_topic-delete_topic,
}

abbrev subscribed : Subscribers
subscribed = (text "ch", (text "bob", text "kb") ∷ []) ∷ []

key_of-add_example :
    key_of (text "ch") (text "ann") (add (text "ch") (text "ann") (text "ka") subscribed)
    ≡ some (text "ka")
key_of-add_example =
    key_of-add (text "ch") (text "ann") (text "ka") (text "ch") (text "ann") subscribed

key_of-remove_example :
    key_of (text "ch") (text "bob") (remove (text "ch") (text "bob") subscribed) ≡ none
key_of-remove_example = key_of-remove (text "ch") (text "bob") (text "ch") (text "bob") subscribed

query_by_topic-delete_topic_example :
    query_by_topic (text "ch") (delete_topic (text "ch") subscribed) ≡ err no_topic
query_by_topic-delete_topic_example = query_by_topic-delete_topic (text "ch") (text "ch") subscribed
