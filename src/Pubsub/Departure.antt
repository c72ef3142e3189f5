-- ===== src/Pubsub/Departure.antt =====
-- A Leave of pubsub/agent.go on one node, and the state handler of pubsub/processor.go on another, to
-- which the transport brings the status.
pub mod Entries
use zero_comm.Prelude.{
  Text, text, Bool, true, false, List, [], ◌∷◌, ◌++◌, Option, some, none, ◌≡◌, ◌≢◌, refl, ◌∙◌, sym,
  ap, arith, ok, RoundTrips, unmarshal-marshalled, ◌==◌, ◌&&◌, if◌then◌else◌, eq_refl, subst,
}
use zero_comm.Prelude.Dict.{Dict, lookup, lookup-delete}
use zero_comm.Domain.{Member, Status, hello_prefix, member_status_v1}
use zero_comm.Domain.MsgType.{group_status}
use zero_comm.Validator.Checksum.{IsDigest}
use zero_comm.Stores.Group.{membrs, joined, delete_topic}
use zero_comm.Stores.Group.View.{view}
use zero_comm.Stores.Group.Invariant.{IsStore}
use zero_comm.Stores.Subscriber.{key_of}
use zero_comm.Transport.Topics.{state_topic}
use zero_comm.Pubsub.Node.{Outside, Node, Call, publish_call, subscribe_call}
use zero_comm.Pubsub.Channels.{Replies}
use zero_comm.Pubsub.Processor.{state, intended, extract_status}
use zero_comm.Pubsub.Processor.Membership.{Carries, state_expels}
use zero_comm.Pubsub.Agent.{
  own_member, pack_entry, pack_each, compress_status, notify_all, leave, nobody, is_publisher,
  inv_of,
}
use zero_comm.Pubsub.Departure.Entries.{entries, pack_each_lem, intended-entries, Among}

module _ (id topic : Text) (n : Node) (ids sealed : Text → Text) where
  abbrev pub status_of : Status
  status_of = record {
    id = id;
    typ = member_status_v1;
    topic = topic;
    auth_msgs = entries n.my_label ids sealed (membrs topic n.gs) [];
  }

abbrev pub self : Text → Node → Bool → Bool → Member
self topic n active publisher = own_member n active publisher (inv_of (lookup topic n.invs))

module _ (o : Outside) (id topic : Text) (n : Node) (ids sealed : Text → Text) where
  notify_all_lem :
      (active publisher : Bool) (byts enc : Text)
      → ((c : Call) → o.outcome c ≡ ok tt)
      → o.members.marshal (self topic n active publisher) ≡ ok byts
      → ((m : Member) → pack_entry o m byts ≡ ok (ids m.label, sealed m.label))
      → o.statuses.marshal (status_of id topic n ids sealed) ≡ ok enc
      → notify_all o id topic active publisher n ≡ (
        ok tt,
        record n { calls = publish_call (state_topic topic) (o.encode_all enc) ∷ n.calls },
      )
  unfolding notify_all compress_status
  notify_all_lem active publisher byts enc works writes packs encodes = rw writes (
      rw (pack_each_lem n.my_label ids sealed o byts (membrs topic n.gs) [] packs)
        (rw encodes (rw (works (publish_call (state_topic topic) (o.encode_all enc))) refl)))

abbrev pub leaving : Text → Node → Call
leaving topic n = subscribe_call false true true true topic n.my_label nobody

module _ (o : Outside) (id topic : Text) (n : Node) (ids sealed : Text → Text) where
  leave_lem :
      (m : Member) (ms : List Member) (byts enc : Text)
      → ((c : Call) → o.outcome c ≡ ok tt)
      → Replies o
      → membrs topic n.gs ≡ m ∷ ms
      → o.members.marshal (self topic n false (is_publisher n.my_label (m ∷ ms))) ≡ ok byts
      → ((x : Member) → pack_entry o x byts ≡ ok (ids x.label, sealed x.label))
      → o.statuses.marshal (status_of id topic n ids sealed) ≡ ok enc
      → leave o id topic n ≡ (
        ok tt,
        record n {
          calls = publish_call (state_topic topic) (o.encode_all enc) ∷ leaving topic n ∷ n.calls;
          subs = zero_comm.Stores.Subscriber.delete_topic topic n.subs;
          gs = delete_topic topic n.gs;
          out = (text "Left group " ++ topic) ∷ n.out;
        },
      )
  unfolding leave
  leave_lem m ms byts enc works replies full writes packs encodes =
      let asked : Node = record n { calls = leaving topic n ∷ n.calls } in
      rw (replies (leaving topic n)).0 (
        rw (replies (leaving topic n)).1 (
          rw full (
            rw
              (notify_all_lem o id topic asked ids sealed false (is_publisher n.my_label (m ∷ ms))
                byts enc works writes packs encodes)
              refl)))

joined-delete_topic : (topic : Text) (n : Node) → joined topic (delete_topic topic n.gs) ≡ false
unfolding joined delete_topic
joined-delete_topic topic n = rw (lookup-delete topic topic n.gs) (rw (eq_refl topic) refl)

-- The two ends of a departure. The receiver has one connection of those that the leaver packs a message
-- for, the one with it, and reads that message as the leaver's; zstd and JSON give back what they took.
pub record Parting (o q : Outside) (ids sealed : Text → Text) (to me byts : Text) : Type 0 where
  pub works : (c : Call) → o.outcome c ≡ ok tt
  pub replies : Replies o
  pub packs : (x : Member) → pack_entry o x byts ≡ ok (ids x.label, sealed x.label)
  pub statuses_trip : RoundTrips o.statuses
  pub members_trip : RoundTrips o.members
  pub same_statuses : q.statuses ≡ o.statuses
  pub same_members : q.members ≡ o.members
  pub inflates : (t : Text) → q.decode_all (o.encode_all t) ≡ ok t
  pub own : (l : Text) → q.valid_conn (ids l) ≡ (l == to)
  pub full : sealed to ≢ []
  pub reads : q.read_message group_status (sealed to) ≡ ok (me, byts)
  pub other : to ≢ me
  pub no_hello : byts ≢ hello_prefix

module _ (o q : Outside) (ids sealed : Text → Text) (to byts enc id topic : Text) (n : Node) where
  status-Carries :
      Parting o q ids sealed to n.my_label byts
      → Among to (membrs topic n.gs)
      → o.statuses.marshal (status_of id topic n ids sealed) ≡ ok enc
      → Carries q (o.encode_all enc) (status_of id topic n ids sealed) n.my_label byts
  unfolding extract_status
  status-Carries p among encodes = record {
    extracted =
        rw (p.inflates enc) (
          unmarshal-marshalled o.statuses q.statuses _ enc p.statuses_trip p.same_statuses encodes);
    present = subst (λ t. t ≢ []) (sym picked) p.full;
    reads = rw picked p.reads;
  }
    where
      picked :
          intended q.valid_conn (entries n.my_label ids sealed (membrs topic n.gs) []) ≡ sealed to
      picked =
          intended-entries n.my_label ids sealed q.valid_conn to p.own (membrs topic n.gs) p.other
            among

  -- A member that leaves a group with at least one other member is no longer in the group, and
  -- publishes a status; a member of the group that gets it takes the leaver, and no other, out of the
  -- group and of its subscribers, and keeps its store well formed. All calls to the transport succeed,
  -- and the two ends meet as `Parting` says.
  pub left_expelled :
      (m : Member) (ms : List Member) (r : Node)
      → IsDigest q.digest
      → Parting o q ids sealed to n.my_label byts
      → Replies q
      → membrs topic n.gs ≡ m ∷ ms
      → Among to (m ∷ ms)
      → o.members.marshal (self topic n false (is_publisher n.my_label (m ∷ ms))) ≡ ok byts
      → o.statuses.marshal (status_of id topic n ids sealed) ≡ ok enc
      → let (result, left) = leave o id topic n in
        let after = (state q (o.encode_all enc) r).1 in
        (result ≡ ok tt)
        × (joined topic left.gs ≡ false)
        × (left.calls
            ≡ publish_call (state_topic topic) (o.encode_all enc) ∷ leaving topic n ∷ n.calls)
        × ((t l : Text)
            → view after.gs t l ≡ (if topic == t && n.my_label == l then none else view r.gs t l))
        × ((t l : Text)
            → key_of t l after.subs
              ≡ (if topic == t && n.my_label == l then none else key_of t l r.subs))
        × (IsStore q.digest r.gs → IsStore q.digest after.gs)
  left_expelled m ms r k p replies full among writes encodes =
      let left =
        leave_lem o id topic n ids sealed m ms byts enc p.works p.replies full writes p.packs
          encodes in
      let gone =
        state_expels q (o.encode_all enc) (status_of id topic n ids sealed) n.my_label byts
          (self topic n false (is_publisher n.my_label (m ∷ ms))) r k
          (status-Carries p (rw full among) encodes) p.no_hello
          (unmarshal-marshalled o.members q.members _ byts p.members_trip p.same_members writes)
          refl replies in
      rw left (refl, joined-delete_topic topic n, refl, gone.0, gone.1, gone.2)
