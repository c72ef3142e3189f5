-- ===== src/Pubsub/Processor/Membership.antt =====
-- What the status messages of pubsub/processor.go do to the group that an agent knows.
use zero_comm.Prelude.{
  Text, text, Bool, true, false, [], ◌∷◌, ◌++◌, none, some, ◌≡◌, ◌≢◌, refl, arith, ap, ◌∙◌, Result,
  ok, err, panic, ◌==◌, ◌&&◌, eq_iff, if◌then◌else◌,
}
use zero_comm.Prelude.Method.{Method, proceed, ◌>>◌, modify}
use zero_comm.Domain.{Member, Status, hello_prefix, null_role}
use zero_comm.Domain.MsgType.{group_status}
use zero_comm.Validator.Checksum.{IsDigest}
use zero_comm.Stores.Group.{add_membrs, delete_membr}
use zero_comm.Stores.Group.View.{view, view-add_membrs, view-delete_membr}
use zero_comm.Stores.Group.Invariant.{IsStore, IsStore-add_membrs, IsStore-delete_membr}
use zero_comm.Stores.Group.Agreement.{add_membrs_outcome}
use zero_comm.Stores.Subscriber.{remove, key_of, key_of-remove}
use zero_comm.Pubsub.Node.{
  Outside, Node, Call, connect_call, subscribe_call, remv_keys_call, call, print, on_groups,
}
use zero_comm.Pubsub.Channels.{send_connect, send_subscribe, Replies}
use zero_comm.Pubsub.Processor.{
  intended, extract_status, state, remove_member, update_member, status_text, only_if,
}

-- A message on a state topic that carries, for a connection of the agent, a text from a sender.
pub record Carries (o : Outside) (msg : Text) (status : Status) (sender body : Text) : Type 0 where
  pub extracted : extract_status o msg ≡ ok status
  pub present : intended o.valid_conn status.auth_msgs ≢ []
  pub reads :
      o.read_message group_status (intended o.valid_conn status.auth_msgs) ≡ ok (sender, body)

module _ (o : Outside) where
  state-read :
      (msg : Text) (status : Status) (sender body : Text) (n : Node)
      → Carries o msg status sender body
      → state o msg n ≡ status_text o status (sender, body) n
  unfolding state
  state-read msg status sender body n c =
      let filled : (intended o.valid_conn status.auth_msgs == []) ≡ false =
        ground (arith, eq_iff (intended o.valid_conn status.auth_msgs) [], c.present) in
      rw c.extracted (rw filled (rw c.reads refl))

  state-member :
      (msg : Text) (status : Status) (sender body : Text) (m : Member) (n : Node)
      → Carries o msg status sender body
      → body ≢ hello_prefix
      → o.members.unmarshal body ≡ ok m
      → state o msg n ≡ update_member o status m n
  state-member msg status sender body m n c hello hm =
      let other : (body == hello_prefix) ≡ false = ground (arith, eq_iff body hello_prefix) in
      state-read msg status sender body n c ∙ rw other (rw hm refl)

  -- `update_member` with the test apart
  abbrev updated : Bool → Status → Member → Method Node (Unit {0})
  updated active status m =
      if active
      then on_groups (add_membrs o.digest status.topic (m ∷ []))
      else (remove_member o m status.topic
          >> print (m.label ++ (text " left group " ++ status.topic)))

  state-updated :
      (msg : Text) (status : Status) (sender body : Text) (m : Member) (n : Node) {active : Bool}
      → Carries o msg status sender body
      → body ≢ hello_prefix
      → o.members.unmarshal body ≡ ok m
      → m.active ≡ active
      → state o msg n ≡ updated active status m n
  state-updated msg status sender body m n c hello hm e =
      state-member msg status sender body m n c hello hm ∙ ap (λ b. updated b status m n) e

  -- A status in which a member says that it is active is processed without an error, keeps the store
  -- well formed, and puts this member under its label in the group; every other member of any group
  -- stays, and no other component is called.
  pub state_admits :
      (msg : Text) (status : Status) (sender body : Text) (m : Member) (n : Node)
      → IsDigest o.digest
      → Carries o msg status sender body
      → body ≢ hello_prefix
      → o.members.unmarshal body ≡ ok m
      → m.active ≡ true
      → let after = (state o msg n).1 in
        ((state o msg n).0 ≡ ok tt)
        × ((t l : Text)
            → view after.gs t l
              ≡ (if status.topic == t && m.label == l then some m else view n.gs t l))
        × (IsStore o.digest n.gs → IsStore o.digest after.gs)
        × (after.calls ≡ n.calls)
  state_admits msg status sender body m n k c hello hm active =
      rw (state-updated msg status sender body m n c hello hm active) (
        add_membrs_outcome o.digest k status.topic m [] n.gs,
        view-add_membrs o.digest status.topic (m ∷ []) n.gs,
        IsStore-add_membrs o.digest k status.topic (m ∷ []) n.gs,
        refl,
      )

  -- After a step that only logs or calls, the stores are as before.
  keeps_stores :
      (r : Result (Unit {0})) (line : Text) (c : Call) (n : Node)
      → let after =
          (proceed
            (proceed r (λ _. call o c) n).0
            (λ _. print line)
            (proceed r (λ _. call o c) n).1).1 in
        (after.gs ≡ n.gs) × (after.subs ≡ n.subs)
  keeps_stores (ok u) line c n = by_outcome (o.outcome c)
    where
      by_outcome :
          (r : Result (Unit {0}))
          → ((proceed r (λ _. print line) (record n { calls = c ∷ n.calls })).1.gs ≡ n.gs)
            × ((proceed r (λ _. print line) (record n { calls = c ∷ n.calls })).1.subs ≡ n.subs)
      by_outcome (ok u) = (refl, refl)
      by_outcome (err e) = (refl, refl)
      by_outcome panic = (refl, refl)
  keeps_stores (err e) line c n = (refl, refl)
  keeps_stores panic line c n = (refl, refl)

  -- `remove_member` with the test apart, and the line that follows
  abbrev removed : Bool → Member → Text → Text → Method Node (Unit {0})
  removed publisher m topic line n =
      ((do
        send_connect o false null_role [] [] m
        only_if publisher (send_subscribe o false false false true topic n.my_label m)
        modify (λ k. record k { subs = remove topic m.label k.subs })
        on_groups (delete_membr o.digest topic m.label)
        call o (remv_keys_call m.label))
          >> print line)
        n

  removed_lem :
      (publisher : Bool) (m : Member) (topic line : Text) (n : Node)
      → Replies o
      → ((removed publisher m topic line n).1.gs ≡ (delete_membr o.digest topic m.label n.gs).1)
        × ((removed publisher m topic line n).1.subs ≡ remove topic m.label n.subs)
  removed_lem true m topic line n works = rw (works (connect_call false null_role [] [] m)).0 (
      rw (works (connect_call false null_role [] [] m)).1 (
        rw (works (subscribe_call false false false true topic n.my_label m)).0 (
          rw (works (subscribe_call false false false true topic n.my_label m)).1 (
            keeps_stores (delete_membr o.digest topic m.label n.gs).0 line (remv_keys_call m.label)
              _))))
  removed_lem false m topic line n works = rw (works (connect_call false null_role [] [] m)).0 (
      rw (works (connect_call false null_role [] [] m)).1
        (keeps_stores (delete_membr o.digest topic m.label n.gs).0 line (remv_keys_call m.label) _))

  -- A status in which a member says that it is not active takes this member out of the group and of
  -- the subscribers, and no other, and keeps the store well formed; also where the group's checksum
  -- cannot be computed any more. The listeners' replies
  -- are no errors.
  pub state_expels :
      (msg : Text) (status : Status) (sender body : Text) (m : Member) (n : Node)
      → IsDigest o.digest
      → Carries o msg status sender body
      → body ≢ hello_prefix
      → o.members.unmarshal body ≡ ok m
      → m.active ≡ false
      → Replies o
      → let after = (state o msg n).1 in
        ((t l : Text)
          → view after.gs t l ≡ (if status.topic == t && m.label == l then none else view n.gs t l))
        × ((t l : Text)
            → key_of t l after.subs
              ≡ (if status.topic == t && m.label == l then none else key_of t l n.subs))
        × (IsStore o.digest n.gs → IsStore o.digest after.gs)
  unfolding remove_member
  state_expels msg status sender body m n k c hello hm inactive works =
      let (groups, subscribers) =
        removed_lem m.publisher m status.topic (m.label ++ (text " left group " ++ status.topic)) n
          works in
      rw (state-updated msg status sender body m n c hello hm inactive) (
        (λ t l.
            ap (λ gs. view gs t l) groups
            ∙ view-delete_membr o.digest status.topic m.label n.gs t l),
        (λ t l. ap (λ s. key_of t l s) subscribers ∙ key_of-remove status.topic m.label t l n.subs),
        λ h. rw groups (IsStore-delete_membr o.digest k status.topic m.label n.gs h),
      )
