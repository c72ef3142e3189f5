-- ===== src/Pubsub/Agent/Sending.antt =====
-- What Create and Send of pubsub/agent.go do.
use zero_comm.Prelude.{
  ℕ, Text, Bool, true, false, List, [], ◌∷◌, some, ◌≡◌, refl, ap, ◌∙◌, ok, err, not_publisher,
  invalid_mode, arith, ◌==◌, ◌&&◌, if◌then◌else◌, length, map,
}
use zero_comm.Prelude.Dict.{Dict}
use zero_comm.Domain.{Member, GroupParams, valid_mode}
use zero_comm.Validator.Checksum.{IsDigest}
use zero_comm.Stores.Group.{Groups, membr, mode, set_params, params}
use zero_comm.Stores.Group.History.{params-add_membrs, params-set_params}
use zero_comm.Stores.Group.View.{view, view-add_membrs, view-set_params}
use zero_comm.Stores.Group.Invariant.{IsStore, IsStore-add_membrs, IsStore-set_params}
use zero_comm.Stores.Group.Agreement.{add_membrs_outcome}
use zero_comm.Stores.Subscriber.{query_by_topic}
use zero_comm.Syncer.{message}
use zero_comm.Transport.Topics.{data_topic, data_topic_in}
use zero_comm.Pubsub.Packer.{pack}
use zero_comm.Pubsub.Node.{Outside, Node, Call, publish_call}
use zero_comm.Pubsub.Agent.{send, send_each, report, create, own_member}

-- The calls of a Send, the last one first: one for each subscriber, on the data topic of the pair.
unfoldable pub published_onto :
    (Text → Text → Text) → Text → Text → Text → Dict Text → List Call → List Call
published_onto packed md topic me [] calls = calls
published_onto packed md topic me ((sub, key) ∷ subs) calls =
    published_onto packed md topic me subs
      (publish_call (data_topic_in md topic me sub) (packed sub key) ∷ calls)

module _ (o : Outside) (works : (c : Call) → o.outcome c ≡ ok tt) where
  send_each_lem :
      (packed : Text → Text → Text) (md topic body : Text) (subs : Dict Text) (n : Node)
      → ((sub key : Text) → pack o sub (some key) body ≡ ok (packed sub key))
      → mode topic n.gs ≡ ok md
      → send_each o topic body subs n ≡ (
        ok (map (λ e. length (packed e.0 e.1)) subs),
        record n { calls = published_onto packed md topic n.my_label subs n.calls },
      )
  unfolding send_each data_topic published_onto
  send_each_lem packed md topic body [] n packs in_mode = refl
  send_each_lem packed md topic body ((sub, key) ∷ subs) n packs in_mode =
      let published : Node = record n {
        calls = publish_call (data_topic_in md topic n.my_label sub) (packed sub key) ∷ n.calls;
      } in
      rw (packs sub key) (
        rw in_mode (
          rw (works (publish_call (data_topic_in md topic n.my_label sub) (packed sub key)))
            (rw (send_each_lem packed md topic body subs published packs in_mode) refl)))

  reported :
      (topic msg : Text) (sizes : List ℕ) (n : Node)
      → ((report o topic msg sizes n).0 ≡ ok sizes)
        × ((report o topic msg sizes n).1.calls ≡ n.calls)
        × ((report o topic msg sizes n).1.gs ≡ n.gs)
  reported topic msg [] n = (refl, refl, refl)
  reported topic msg (s ∷ sizes) n = (refl, refl, refl)

  -- Send by a publisher of the group publishes one message for each subscriber of the topic, packed
  -- for its key, on the data topic of the two, and nothing else; it returns the lengths of these
  -- messages, and no group changes. All carry the message with the topic's timestamp, if it has one.
  -- Packing and publishing succeed.
  pub send_publishes :
      (packed : Text → Text → Text) (md topic msg body : Text) (now : ℕ) (m : Member)
      (subs : Dict Text) (n : Node)
      → membr topic n.my_label n.gs ≡ some m
      → m.publisher ≡ true
      → query_by_topic topic n.subs ≡ ok subs
      → (message o.clocks topic msg now n.syncr).0 ≡ ok body
      → ((sub key : Text) → pack o sub (some key) body ≡ ok (packed sub key))
      → mode topic n.gs ≡ ok md
      → let (result, after) = send o now topic msg n in
        (result ≡ ok (map (λ e. length (packed e.0 e.1)) subs))
        × (after.calls ≡ published_onto packed md topic n.my_label subs n.calls)
        × (after.gs ≡ n.gs)
  unfolding send
  send_publishes packed md topic msg body now m subs n found publ known made packs in_mode =
      let stamped : Node = record n { syncr = (message o.clocks topic msg now n.syncr).1 } in
      rw found (
        rw publ (
          rw known (
            rw made (
              rw (send_each_lem packed md topic body subs stamped packs in_mode)
                (reported topic msg (map (λ e. length (packed e.0 e.1)) subs) _)))))

module _ (o : Outside) where
  -- Send by a member that is not a publisher is an error and changes nothing.
  pub send_refused :
      (topic msg : Text) (now : ℕ) (m : Member) (n : Node)
      → membr topic n.my_label n.gs ≡ some m
      → m.publisher ≡ false
      → send o now topic msg n ≡ (err not_publisher, n)
  unfolding send
  send_refused topic msg now m n found plain = rw found (rw plain refl)

  -- A group that Create makes with a valid mode has its creator under its label, with the invitation
  -- and the endpoint of this node, beside the members that the store had; the store stays well
  -- formed, and no error is returned. With an invalid mode Create returns an error and no group
  -- changes. The prober makes an invitation.
  pub create_outcome :
      (now : ℕ) (topic inv : Text) (publisher : Bool) (gp : GroupParams) (n : Node)
      → IsDigest o.digest
      → o.invite ≡ ok inv
      → let (result, after) = create o now topic publisher gp n in
        let m = own_member n true publisher inv in
        (valid_mode gp.mode ≡ true
          → (result ≡ ok tt)
            × ((t l : Text)
                → view after.gs t l
                  ≡ (if topic == t && n.my_label == l then some m else view n.gs t l))
            × (IsStore o.digest n.gs → IsStore o.digest after.gs))
        × (valid_mode gp.mode ≡ false → (result ≡ err invalid_mode) × (after.gs ≡ n.gs))
  unfolding create set_params
  create_outcome now topic inv publisher gp n k made = (
    (λ valid.
        let set : (set_params topic gp n.gs).0 ≡ ok tt = rw (valid, set_params) refl in
        rw made (
          rw set (
            rw (add_membrs_outcome o.digest k topic m [] with_params) (
              refl,
              (λ t l.
                  view-add_membrs o.digest topic (m ∷ []) with_params t l
                  ∙ ap (λ v. if topic == t && n.my_label == l then some m else v)
                      (view-set_params topic gp n.gs t l)),
              λ h.
                  IsStore-add_membrs o.digest k topic (m ∷ []) with_params
                    (IsStore-set_params o.digest k topic gp n.gs h),
            )))),
    λ invalid.
        let refused : set_params topic gp n.gs ≡ (err invalid_mode, n.gs) =
          rw (invalid, set_params) refl in
        rw made (rw refused (refl, refl)),
  )
    where
      m : Member
      m = own_member n true publisher inv

      with_params : Groups
      with_params = (set_params topic gp n.gs).1

  -- A valid mode sets the parameters of the topic, and of no other.
  pub params-create :
      (now : ℕ) (topic inv : Text) (publisher : Bool) (gp : GroupParams) (n : Node) (t : Text)
      → IsDigest o.digest
      → o.invite ≡ ok inv
      → valid_mode gp.mode ≡ true
      → params t (create o now topic publisher gp n).1.gs
        ≡ (if topic == t then some gp else params t n.gs)
  unfolding create set_params
  params-create now topic inv publisher gp n t k made valid =
      let set : (set_params topic gp n.gs).0 ≡ ok tt = rw (valid, set_params) refl in
      let m = own_member n true publisher inv in
      rw made (
        rw set (
          rw (add_membrs_outcome o.digest k topic m [] (set_params topic gp n.gs).1) (
            params-add_membrs o.digest topic (m ∷ []) (set_params topic gp n.gs).1 t
            ∙ params-set_params topic gp n.gs t
            ∙ ground (arith, valid))))
