-- ===== src/Pubsub/Join/Entered.antt =====
-- The groups of a node after a Join.
use zero_comm.Prelude.{
  Text, text, Bool, true, List, [], ◌∷◌, ◌++◌, none, some, ◌≡◌, ◌∙◌, ap, sym, arith, ok,
  if◌then◌else◌, ◌==◌, Bool-cases, inl, inr,
}
use zero_comm.Prelude.Method.{Method, ◌>>=◌, lift, >>=-ok}
use zero_comm.Domain.{Member, GroupParams, ResGroupJoin, valid_mode}
use zero_comm.Validator.{Digest}
use zero_comm.Validator.Checksum.{IsDigest}
use zero_comm.Stores.Group.{Groups, add_membrs, set_params, params, joined}
use zero_comm.Stores.Group.View.{view, added, added-cong, view-add_membrs, view-set_params}
use zero_comm.Stores.Group.Invariant.{IsStore, IsStore-add_membrs, IsStore-set_params}
use zero_comm.Stores.Group.History.{params-add_membrs, params-set_params}
use zero_comm.Pubsub.Node.{Outside, Node, on_groups}
use zero_comm.Pubsub.Agent.{own_member}
use zero_comm.Pubsub.Waiting.{wait_for_conns}
use zero_comm.Pubsub.Requests.{req_state}
use zero_comm.Pubsub.Join.{
  join, enter, keep_inv, verified, subscribe_members, connect_members, verify_view, admit, announce,
  begin, enter_as, ask, Course, Waits,
}
use zero_comm.Pubsub.Join.Quiet.{
  face, Quiet, Kept-proceed, Quiet-lift, Quiet-subscribe_all, Quiet-connect_all,
  Quiet-wait_for_conns, Quiet-notify_all, Quiet-req_state,
}

valid_of_set :
    (topic : Text) (gp : GroupParams) (gs : Groups)
    → (set_params topic gp gs).0 ≡ ok tt
    → valid_mode gp.mode ≡ true
unfolding set_params
valid_of_set topic gp gs set = elim (Bool-cases (valid_mode gp.mode)) [
  | inl valid ↦ valid
  | inr invalid ↦ cc (rw (invalid, set_params) at set)
]

abbrev entered_groups : Digest → Text → GroupParams → List Member → Groups → Groups
entered_groups d topic gp ms gs = (add_membrs d topic ms (set_params topic gp gs).1).1

entered_groups_lem :
    (d : Digest)
    → IsDigest d
    → (topic : Text) (gp : GroupParams) (ms : List Member) (gs : Groups)
    → (set_params topic gp gs).0 ≡ ok tt
    → let after = entered_groups d topic gp ms gs in
      ((t l : Text) → view after t l ≡ added topic ms (view gs) t l)
      × ((t : Text) → params t after ≡ (if topic == t then some gp else params t gs))
      × (IsStore d gs → IsStore d after)
entered_groups_lem d k topic gp ms gs set =
    let valid = valid_of_set topic gp gs set in
    let with_params : Groups = (set_params topic gp gs).1 in
    (
      (λ t l.
          view-add_membrs d topic ms with_params t l
          ∙ added-cong topic ms _ _ (view-set_params topic gp gs) t l),
      (λ t.
          params-add_membrs d topic ms with_params t
          ∙ params-set_params topic gp gs t
          ∙ ground (arith, valid)),
      λ well. IsStore-add_membrs d k topic ms with_params (IsStore-set_params d k topic gp gs well),
    )

-- The node as another one that has the same name
own_member-face :
    (n k : Node) (publisher : Bool) (inv : Text)
    → face k ≡ face n
    → own_member k true publisher inv ≡ own_member n true publisher inv
own_member-face n k publisher inv same =
    ap
      (λ f. record {
        active = true;
        publisher = publisher;
        label = f.1;
        inv = inv;
        pub_endpoint = f.2;
      })
      same

module _ (o : Outside) (c : Course) (topic acceptor : Text) (publisher : Bool) where
  -- A step that succeeds leaves the groups with the members added to them.
  abbrev Admits : List Member → Method Node Waits → Type 0
  Admits ms m =
      (n : Node) (w : Waits) → (m n).0 ≡ ok w → (m n).1.gs ≡ (add_membrs o.digest topic ms n.gs).1

  -- A quiet call before such a step does not matter.
  Admits->>= :
      {A : Type 0} (ms : List Member) (m : Method Node A) (f : A → Method Node Waits)
      → Quiet m
      → ((a : A) → Admits ms (f a))
      → Admits ms (m >>= f)
  Admits->>= ms m f quiet admits n w h =
      let (a, _, step) = >>=-ok m f n h in
      ap (λ r. r.1.gs) step
      ∙ admits a (m n).1 w (ap (λ r. r.0) (sym step) ∙ h)
      ∙ ap (λ f. (add_membrs o.digest topic ms f.0).1) (quiet n).same

  module _ (group : ResGroupJoin) (joiner : Member) where
    abbrev ms : List Member
    ms = group.members ++ joiner ∷ []

    Quiet-announce : (w : Waits) → Quiet (announce o c topic acceptor publisher w)
    Quiet-announce none n = Quiet-lift _ n
    Quiet-announce (some u) n =
        Kept-proceed (Quiet-notify_all c.later _ topic true publisher n) λ v k. Quiet-lift _ k

    Admits-admit : Admits ms (admit o c topic acceptor publisher group joiner)
    Admits-admit n w h =
        let (a, _, step) = >>=-ok (on_groups (add_membrs o.digest topic ms)) (λ _. rest) n h in
        ap (λ r. r.1.gs) step ∙ ap (λ f. f.0) (quiet_rest _).same
      where
        rest : Method Node Waits
        rest =
            wait_for_conns c.later (c.id (text "hello")) topic group.members c.polls
            >>= announce o c topic acceptor publisher

        quiet_rest : Quiet rest
        quiet_rest k =
            Kept-proceed (Quiet-wait_for_conns c.later _ topic group.members c.polls k)
              Quiet-announce

    Admits-subscribe_members :
        Admits ms (subscribe_members o c topic acceptor publisher group joiner)
    unfolding subscribe_members
    Admits-subscribe_members =
        Admits->>= ms _ (connect_members o c topic acceptor publisher group joiner)
          (Quiet-subscribe_all o _ topic publisher group.members)
          λ res.
            Admits->>= ms _ (verify_view o c topic acceptor publisher group joiner)
              (Quiet-connect_all o topic publisher res group.members [])
              λ hashes.
                Admits->>= ms _ (λ _. admit o c topic acceptor publisher group joiner)
                  (Quiet-lift (verified o c.range_mems acceptor group hashes)) λ u. Admits-admit

    -- enter: set_params first, which succeeds
    enter-Admits :
        (n : Node) (w : Waits)
        → (enter o c topic acceptor publisher group joiner n).0 ≡ ok w
        → ((set_params topic group.params n.gs).0 ≡ ok tt)
          × ((enter o c topic acceptor publisher group joiner n).1.gs
              ≡ (add_membrs o.digest topic ms (set_params topic group.params n.gs).1).1)
    unfolding enter
    enter-Admits n w h =
        let (_, set, step) =
          >>=-ok (on_groups (set_params topic group.params))
            (λ _. begin o c topic acceptor publisher group joiner) n h in
        (set, ap (λ r. r.1.gs) step ∙ Admits-subscribe_members _ w (ap (λ r. r.0) (sym step) ∙ h))

  enter_as-Admits :
      (inv : Text) (group : ResGroupJoin) (n k : Node) (w : Waits)
      → face k ≡ face n
      → (enter_as o c topic acceptor publisher inv group k).0 ≡ ok w
      → ((set_params topic group.params n.gs).0 ≡ ok tt)
        × ((enter_as o c topic acceptor publisher inv group k).1.gs
            ≡ (add_membrs o.digest topic
                (group.members ++ own_member n true publisher inv ∷ [])
                (set_params topic group.params n.gs).1).1)
  enter_as-Admits inv group n k w same h =
      let (set, groups) = enter-Admits group (own_member k true publisher inv) k w h in
      (
        ap (λ f. (set_params topic group.params f.0).0) (sym same) ∙ set,
        groups
            ∙ ap
                (λ f.
                  (add_membrs o.digest topic (group.members ++ own_member k true publisher inv ∷ [])
                    (set_params topic group.params f.0).1).1)
                same
            ∙ ap
                (λ m.
                  (add_membrs o.digest topic (group.members ++ m ∷ [])
                    (set_params topic group.params n.gs).1).1)
                (own_member-face n k publisher inv same),
      )

  -- After a Join that returns no error, the node has the members that the acceptor sent and itself in the
  -- group, under their labels and beside the members it had, and the parameters that the acceptor sent;
  -- no other group changes, and the store stays well formed. This holds of a Join that still waits for
  -- its connections, too.
  pub join_enters :
      (n : Node) (w : Waits)
      → IsDigest o.digest
      → (join o c topic acceptor publisher n).0 ≡ ok w
      → let after = (join o c topic acceptor publisher n).1 in
        (inv : Text) × (group : ResGroupJoin) × (o.invite ≡ ok inv)
        × ((req_state o (c.id (text "request")) topic acceptor inv (keep_inv topic inv n).1).0
            ≡ ok group)
        × ((t l : Text)
            → view after.gs t l
              ≡ added topic (group.members ++ own_member n true publisher inv ∷ []) (view n.gs) t l)
        × ((t : Text)
            → params t after.gs ≡ (if topic == t then some group.params else params t n.gs))
        × (IsStore o.digest n.gs → IsStore o.digest after.gs)
  unfolding join
  join_enters n w k h = elim (Bool-cases (joined topic n.gs)) [
    | inl before ↦ cc (rw (before, join) at h)
    | inr fresh ↦
        let (inv, invited, first) =
          >>=-ok (lift o.invite) (ask o c topic acceptor publisher) n (rw (fresh, join) at h) in
        let asked : Node = (keep_inv topic inv n).1 in
        let (group, got, second) =
          >>=-ok (req_state o (c.id (text "request")) topic acceptor inv)
            (enter_as o c topic acceptor publisher inv) asked
            (ap (λ r. r.0) (sym first) ∙ (rw (fresh, join) at h)) in
        let there : Node = (req_state o (c.id (text "request")) topic acceptor inv asked).1 in
        let same : face there ≡ face n = (Quiet-req_state o _ topic acceptor inv asked).same in
        let ms = group.members ++ own_member n true publisher inv ∷ [] in
        let (set, groups) =
          enter_as-Admits inv group n there w same
            (ap (λ r. r.0) (sym second) ∙ ap (λ r. r.0) (sym first) ∙ (rw (fresh, join) at h)) in
        let facts = entered_groups_lem o.digest k topic group.params ms n.gs set in
        let all : (join o c topic acceptor publisher n).1.gs
            ≡ entered_groups o.digest topic group.params ms n.gs =
          rw (fresh, join) (ap (λ r. r.1.gs) first ∙ ap (λ r. r.1.gs) second ∙ groups) in
        (inv, group, invited, got, rw all facts.0, rw all facts.1, rw all facts.2)
  ]
