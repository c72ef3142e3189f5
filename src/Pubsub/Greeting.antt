-- ===== src/Pubsub/Greeting.antt =====
-- The hello of waitForConns of pubsub/agent.go, the answer of the handler of pubsub/processor.go to it,
-- and what pubsub/transport/peers.go makes of the answer.
mod Examples
use zero_comm.Prelude.{
  Text, true, List, [], ◌∷◌, ◌≡◌, ◌≢◌, refl, ◌∙◌, ap, sym, subst, arith, Result, ok, err, panic,
  ◌>>=◌, Bool, false, some, All, RoundTrips, unmarshal-marshalled, ◌==◌, eq_iff, eq_refl,
  Bool-cases, inl, inr,
}
use zero_comm.Prelude.Dict.{Dict, insert, lookup, lookup-insert}
use zero_comm.Domain.{Member, Status, hello_prefix, hello_protocol_v1}
use zero_comm.Domain.MsgType.{group_status, status_ack}
use zero_comm.Transport.Peers.{Peers, acked, connected}
use zero_comm.Pubsub.Node.{Outside, Node, message_call, Call}
use zero_comm.Pubsub.Processor.{state, extract_status, intended, status_text, status_for}
use zero_comm.Pubsub.Agent.{pack_each, pack_entry}
use zero_comm.Pubsub.Waiting.{pack_hellos, compress_hellos}
use zero_comm.Pubsub.Departure.Entries.{Among, entries, pack_each_lem, intended-entries}

-- A newcomer and a member that it greets: the member has, of the connections under which the hellos are
-- packed, only the one with the newcomer, and reads its hello there; zstd and JSON give back what they took.
pub record Greeted (o q : Outside) (ids sealed : Text → Text) (to me : Text) : Type 0 where
  pub works : (c : Call) → q.outcome c ≡ ok tt
  pub packs : (x : Member) → pack_entry o x hello_prefix ≡ ok (ids x.label, sealed x.label)
  pub statuses_trip : RoundTrips o.statuses
  pub same_statuses : q.statuses ≡ o.statuses
  pub inflates : (t : Text) → q.decode_all (o.encode_all t) ≡ ok t
  pub own : (l : Text) → q.valid_conn (ids l) ≡ (l == to)
  pub full : sealed to ≢ []
  pub reads : q.read_message group_status (sealed to) ≡ ok (me, hello_prefix)
  pub other : to ≢ me

abbrev pub hello_of : Text → Text → Text → (Text → Text) → (Text → Text) → List Member → Status
hello_of id topic me ids sealed grp = record {
  id = id;
  typ = hello_protocol_v1;
  topic = topic;
  auth_msgs = entries me ids sealed grp [];
}

-- Chains after one result that agree on its value
same_chains :
    {A B : Type 0} (r : Result A) (f g : A → Result B)
    → ((a : A) → f a ≡ g a)
    → (r >>= f) ≡ (r >>= g)
same_chains panic f g agree = refl
same_chains (err why) f g agree = refl
same_chains (ok a) f g agree = agree a

-- Where a node is not in the group, it packs hellos as it packs a status.
pack_hellos-eq :
    (o : Outside) (me : Text) (grp : List Member) (msgs : Dict Text)
    → All (λ m. m.label ≢ me) grp
    → pack_hellos o grp msgs ≡ pack_each o me hello_prefix grp msgs
unfolding pack_hellos pack_each
pack_hellos-eq o me [] msgs h = refl
pack_hellos-eq o me (m ∷ ms) msgs h =
    let other : (m.label == me) ≡ false = ground (arith, eq_iff m.label me, h.0) in
    rw other (same_chains (pack_entry o m hello_prefix) _ _ λ e. pack_hellos-eq o me ms _ h.1)

module _ (o q : Outside) (ids sealed : Text → Text) (to me enc id topic : Text) (grp : List Member)
    (r : Node) where
  -- A newcomer that is not in a group packs a hello for its members; a member that gets it sends
  -- an acknowledgement with its endpoint to the newcomer, changes nothing else and returns no
  -- error; and once the newcomer has read the acknowledgement, the member's endpoint counts as
  -- connected. The two ends meet as `Greeted` says.
  pub hello_acknowledged :
      Greeted o q ids sealed to me
      → All (λ m. m.label ≢ me) grp
      → Among to grp
      → o.statuses.marshal (hello_of id topic me ids sealed grp) ≡ ok enc
      → (compress_hellos o id topic grp ≡ ok (o.encode_all enc))
        × (state q (o.encode_all enc) r
            ≡ (ok tt, record r { calls = message_call status_ack me r.pub_endpoint ∷ r.calls }))
        × ((seen : Peers) → connected r.pub_endpoint (acked (ok (to, r.pub_endpoint)) seen) ≡ true)
  unfolding compress_hellos state extract_status acked connected
  hello_acknowledged p apart among encodes =
      let picked : intended q.valid_conn (entries me ids sealed grp []) ≡ sealed to =
        intended-entries me ids sealed q.valid_conn to p.own grp p.other among in
      let packed =
        pack_hellos-eq o me grp [] apart
        ∙ pack_each_lem me ids sealed o hello_prefix grp [] p.packs in
      let status =
        unmarshal-marshalled o.statuses q.statuses _ enc p.statuses_trip p.same_statuses encodes in
      let filled : (sealed to == []) ≡ false = ground (arith, eq_iff (sealed to) [], p.full) in
      (
        rw packed (rw encodes refl),
        rw (p.inflates enc) (
            rw status (
              rw picked (
                rw filled
                  (rw p.reads (rw (p.works (message_call status_ack me r.pub_endpoint)) refl))))),
        λ seen.
            rw (lookup-insert r.pub_endpoint r.pub_endpoint true seen)
              (rw (eq_refl r.pub_endpoint) refl),
      )
