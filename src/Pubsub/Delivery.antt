-- ===== src/Pubsub/Delivery.antt =====
-- A Send of pubsub/agent.go on one node, and the data handler of pubsub/processor.go on another, to
-- which the transport brings what was published for it.
use mathlib.Core.List.{Mem, mem-cons, mem-cons_self, mem-cons_of_mem, not-mem-nil, Mem-prop}
use mathlib.Core.Logic.Or
use zero_comm.Prelude.{
  ℕ, Text, text, true, List, [], ◌∷◌, ◌++◌, some, ◌≡◌, refl, subst, ok, RoundTrips,
}
use zero_comm.Prelude.Dict.{Dict, lookup}
use zero_comm.Domain.{Member}
use zero_comm.Domain.MsgType.{group_msg}
use zero_comm.Stores.Group.{membr, mode}
use zero_comm.Stores.Subscriber.{query_by_topic}
use zero_comm.Syncer.{message, parse}
use zero_comm.Syncer.Causality.{parse-message, Alike}
use zero_comm.Transport.Topics.{data_topic_in, NoColon, group_name-data_topic}
use zero_comm.Pubsub.Node.{Outside, Node, Call, publish_call}
use zero_comm.Pubsub.Packer.{pack}
use zero_comm.Pubsub.Processor.{group_data, send_on}
use zero_comm.Pubsub.Agent.{send}
use zero_comm.Pubsub.Agent.Sending.{published_onto, send_publishes}

module _ (packed : Text → Text → Text) (md topic me : Text) where
  published_onto-keeps :
      (subs : Dict Text) (calls : List Call) {c : Call}
      → Mem c calls
      → Mem c (published_onto packed md topic me subs calls)
  unfolding published_onto
  published_onto-keeps [] calls m = m
  published_onto-keeps ((sub, key) ∷ subs) calls m =
      published_onto-keeps subs _ (mem-cons_of_mem _ m)

  mem-published_onto :
      (sub key : Text) (subs : Dict Text) (calls : List Call)
      → Mem (sub, key) subs
      → Mem
          (publish_call (data_topic_in md topic me sub) (packed sub key))
          (published_onto packed md topic me subs calls)
  unfolding published_onto
  mem-published_onto sub key [] calls m = absurd (not-mem-nil m)
  mem-published_onto sub key ((s, k) ∷ subs) calls m =
      Or.elim Mem-prop (mem-cons.0 m)
        (λ e. published_onto-keeps subs _ (
          subst
            (λ p.
              Mem (publish_call (data_topic_in md topic me sub) (packed sub key))
                (publish_call (data_topic_in md topic me p.0) (packed p.0 p.1) ∷ calls))
            e mem-cons_self))
        (λ rest. mem-published_onto sub key subs _ rest)

-- The line that a node prints for a message of a group
abbrev pub line_of : Text → Text → Text → Text
line_of sender topic msg = sender ++ (text " sent in group '" ++ (topic ++ (text "': " ++ msg)))

module _ (q : Outside) where
  group_data-read :
      (md topic publ sub content sender body msg : Text) (r : Node)
      → NoColon topic
      → q.read_message group_msg content ≡ ok (sender, body)
      → (parse q.clocks topic body r.syncr).0 ≡ ok msg
      → group_data q (data_topic_in md topic publ sub) content r ≡ (
        ok tt,
        record r {
          syncr = (parse q.clocks topic body r.syncr).1;
          acked = send_on (lookup sender r.ack_chans) msg r.acked;
          out = line_of sender topic msg ∷ r.out;
        },
      )
  unfolding group_data
  group_data-read md topic publ sub content sender body msg r plain reads parsed =
      rw reads (rw (group_name-data_topic md topic publ sub plain) (rw parsed refl))

module _ (o q : Outside) where
  -- A publisher of a group sends a message; for each subscriber of the topic, one of the published
  -- messages makes the subscriber's data handler print the text that was sent, under the sender's label
  -- and the group's name, hand it to the channel that is registered for the sender, and return no error;
  -- its stores stay as they are. Packing and publishing succeed, the subscriber reads what was packed for
  -- it as the sender's, the topic is ordered at both or at neither, JSON reads what it wrote, and the
  -- group's name has no colon.
  pub sent_delivered :
      (packed : Text → Text → Text) (md topic msg body : Text) (now : ℕ) (m : Member)
      (subs : Dict Text) (n r : Node) (sub key : Text)
      → ((c : Call) → o.outcome c ≡ ok tt)
      → RoundTrips o.clocks
      → q.clocks ≡ o.clocks
      → membr topic n.my_label n.gs ≡ some m
      → m.publisher ≡ true
      → query_by_topic topic n.subs ≡ ok subs
      → Mem (sub, key) subs
      → (message o.clocks topic msg now n.syncr).0 ≡ ok body
      → ((s k : Text) → pack o s (some k) body ≡ ok (packed s k))
      → mode topic n.gs ≡ ok md
      → Alike topic n.syncr r.syncr
      → q.read_message group_msg (packed sub key) ≡ ok (n.my_label, body)
      → NoColon topic
      → let dt = data_topic_in md topic n.my_label sub in
        Mem (publish_call dt (packed sub key)) (send o now topic msg n).1.calls
        × (group_data q dt (packed sub key) r ≡ (
          ok tt,
          record r {
            syncr = (parse q.clocks topic body r.syncr).1;
            acked = send_on (lookup n.my_label r.ack_chans) msg r.acked;
            out = line_of n.my_label topic msg ∷ r.out;
          },
        ))
  sent_delivered packed md topic msg body now m subs n r sub key works trips same found publ known
        among made packs in_mode alike reads plain =
      (
        rw
            (send_publishes o works packed md topic msg body now m subs n found publ known made
              packs in_mode).1
            (mem-published_onto packed md topic n.my_label sub key subs n.calls among),
        group_data-read q md topic n.my_label sub (packed sub key) n.my_label body msg r plain reads
            (rw same (parse-message o.clocks trips topic msg now n.syncr r.syncr body alike made)),
      )
