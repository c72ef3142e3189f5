-- ===== src/Stores/Subscriber.antt =====
-- pubsub/stores/subscriber.go
use zero_comm.Prelude.{
  Text, [], Option, none, some, ◌≡◌, Result, err, no_topic, or_err, get_or, ◌==◌, if◌then◌else◌,
  arith, eq_iff, ◌&&◌, Option-cases, inl, inr,
}
use zero_comm.Prelude.Dict.{Dict, lookup, insert, delete, lookup-insert, lookup-delete, lookup-nil}

-- The subscribers of a topic, with their public keys.
abbrev pub SubKey : Type 0
SubKey = Dict Text

abbrev pub Subscribers : Type 0
Subscribers = Dict SubKey

abbrev pub new_sub_store : Subscribers
new_sub_store = []

unfoldable pub query_by_topic : Text → Subscribers → Result SubKey
query_by_topic topic s = or_err (lookup topic s) no_topic

unfoldable pub add : Text → Text → Text → Subscribers → Subscribers
add topic sub key s = insert topic (insert sub key (get_or (lookup topic s) [])) s

-- delete on the nil map of an unknown topic does nothing
unfoldable pub remove : Text → Text → Subscribers → Subscribers
remove topic label s = elim (lookup topic s) [
  | none ↦ s
  | some subs ↦ insert topic (delete label subs) s
]

unfoldable pub delete_topic : Text → Subscribers → Subscribers
delete_topic topic s = delete topic s

-- The key of a subscriber of a topic.
unfoldable pub key_of : Text → Text → Subscribers → Option Text
key_of topic sub s = lookup sub (get_or (lookup topic s) [])

-- The last key added for a subscriber of a topic is the one kept, and all others stay.
pub key_of-add :
    (topic sub key t l : Text) (s : Subscribers)
    → key_of t l (add topic sub key s) ≡ (if topic == t && sub == l then some key else key_of t l s)
key_of-add topic sub key t l s =
    unfold key_of add in
    ground (
      arith,
      lookup-insert topic t (insert sub key (get_or (lookup topic s) [])) s,
      lookup-insert sub l key (get_or (lookup topic s) []),
      eq_iff topic t,
    )

pub key_of-remove :
    (topic sub t l : Text) (s : Subscribers)
    → key_of t l (remove topic sub s) ≡ (if topic == t && sub == l then none else key_of t l s)
unfolding remove
key_of-remove topic sub t l s = elim (Option-cases (lookup topic s)) [
  | inl e ↦
      unfold key_of in rw (e, remove) (ground (arith, e, eq_iff topic t, lookup-nil {V = Text} l))
  | inr (subs, e) ↦
      unfold key_of in
      rw (e, remove)
        (ground (
          arith,
          e,
          lookup-insert topic t (delete sub subs) s,
          lookup-delete sub l subs,
          eq_iff topic t,
        ))
]

-- After a topic is deleted it is unknown, and the other topics have their subscribers.
pub query_by_topic-delete_topic :
    (topic t : Text) (s : Subscribers)
    → query_by_topic t (delete_topic topic s)
      ≡ (if topic == t then err no_topic else query_by_topic t s)
query_by_topic-delete_topic topic t s =
    unfold query_by_topic delete_topic in ground (arith, lookup-delete topic t s)
