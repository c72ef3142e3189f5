-- ===== src/Stores/Group/View.antt =====
-- The abstract view of the group store of pubsub/stores/group.go: which member has which label in
-- which topic, and what each method does to it.

use zero_comm.Prelude.{
  Text, List, [], ◌∷◌, Option, none, some, ◌≡◌, refl, ◌∙◌, arith, Result, ok, err, panic, get_or,
  ◌==◌, eq_iff, if◌then◌else◌, ◌&&◌, Option-cases, inl, inr,
}
use zero_comm.Prelude.Dict.{lookup, insert, lookup-insert, lookup-delete, lookup-nil}
use zero_comm.Domain.{Member, GroupParams, Group}
use zero_comm.Validator.{Digest}
use zero_comm.Stores.Group.{
  Groups, empty_group, set_checksum, members_of, members_at, add_member, add_members, recalculate,
  add_membrs, delete_membr, delete_topic, set_params, without_member,
}

-- The member that the store has under a label of a topic.
unfoldable pub view : Groups → Text → Text → Option Member
view gs topic label = lookup label (members_at gs topic)

-- What the additions do to the view: the last addition of a label counts.
abbrev pub added : Text → List Member → (Text → Text → Option Member) → Text → Text → Option Member
added topic [] v t l = v t l
added topic (m ∷ mems) v t l =
    added topic mems (λ t' l'. if topic == t' && m.label == l' then some m else v t' l') t l

view-add_member :
    (topic : Text) (m : Member) (gs : Groups) (t l : Text)
    → view (add_member topic m gs) t l
      ≡ (if topic == t && m.label == l then some m else view gs t l)
view-add_member topic m gs t l =
    unfold view in
    ground (
      arith,
      lookup-insert topic t
          (record (get_or (lookup topic gs) empty_group) {
            members = some (insert m.label m (members_at gs topic));
          })
          gs,
      lookup-insert m.label l m (members_at gs topic),
      eq_iff topic t,
    )

pub added-cong :
    (topic : Text) (mems : List Member) (v w : Text → Text → Option Member)
    → ((t l : Text) → v t l ≡ w t l)
    → (t l : Text) → added topic mems v t l ≡ added topic mems w t l
added-cong topic [] v w h t l = h t l
added-cong topic (m ∷ mems) v w h t l =
    added-cong topic mems _ _ (λ t' l'. ground (arith, h t' l')) t l

pub view-add_members :
    (topic : Text) (mems : List Member) (gs : Groups) (t l : Text)
    → view (add_members topic mems gs) t l ≡ added topic mems (view gs) t l
unfolding add_members
view-add_members topic [] gs t l = refl
view-add_members topic (m ∷ mems) gs t l =
    view-add_members topic mems (add_member topic m gs) t l
    ∙ added-cong topic mems _ _ (view-add_member topic m gs) t l

view-set_checksum :
    (topic : Text) (g : Group) (r : Result Text) (gs : Groups) (t l : Text)
    → lookup topic gs ≡ some g
    → view (set_checksum topic g r gs).1 t l ≡ view gs t l
unfolding view
view-set_checksum topic g (ok h) gs t l e =
    ground (arith, lookup-insert topic t (record g { checksum = h }) gs, eq_iff topic t)
view-set_checksum topic g (err x) gs t l e = refl
view-set_checksum topic g panic gs t l e = refl

-- The checksum is no part of the view.
view-recalculate :
    (d : Digest) (topic : Text) (gs : Groups) (t l : Text)
    → view (recalculate d topic gs).1 t l ≡ view gs t l
unfolding recalculate
view-recalculate d topic gs t l = elim (Option-cases (lookup topic gs)) [
  | inl e ↦ rw (e, recalculate) refl
  | inr (g, e) ↦ rw (e, recalculate) (view-set_checksum topic g _ gs t l e)
]

-- AddMembrs overwrites the labels of the members that it is given, in their topic, whether or not
-- the checksum can be computed; every other label and topic has the member that it had.
pub view-add_membrs :
    (d : Digest) (topic : Text) (mems : List Member) (gs : Groups) (t l : Text)
    → view (add_membrs d topic mems gs).1 t l ≡ added topic mems (view gs) t l
unfolding add_membrs
view-add_membrs d topic mems gs t l =
    view-recalculate d topic (add_members topic mems gs) t l ∙ view-add_members topic mems gs t l

lookup-map_delete :
    (membr l : Text) (g : Group)
    → lookup l (members_of (without_member membr g))
      ≡ (if membr == l then none else lookup l (members_of g))
lookup-map_delete membr l g = elim (Option-cases g.members) [
  | inl e ↦ rw e (ground (arith, lookup-nil {V = Member} l))
  | inr (ms, e) ↦ rw e (lookup-delete membr l ms)
]

-- DeleteMembr takes one label of one topic out of the view, and changes nothing else of it.
pub view-delete_membr :
    (d : Digest) (topic membr : Text) (gs : Groups) (t l : Text)
    → view (delete_membr d topic membr gs).1 t l
      ≡ (if topic == t && membr == l then none else view gs t l)
unfolding delete_membr view
view-delete_membr d topic membr gs t l = elim (Option-cases (lookup topic gs)) [
  | inl e ↦ rw (e, delete_membr) (ground (arith, e, eq_iff topic t, lookup-nil {V = Member} l))
  | inr (g, e) ↦
      rw (e, delete_membr)
        (view-recalculate d topic (insert topic (without_member membr g) gs) t l
          ∙ ground (
            arith,
            e,
            eq_iff topic t,
            lookup-insert topic t (without_member membr g) gs,
            lookup-map_delete membr l g,
          ))
]

-- DeleteTopic empties one topic.
pub view-delete_topic :
    (topic : Text) (gs : Groups) (t l : Text)
    → view (delete_topic topic gs) t l ≡ (if topic == t then none else view gs t l)
unfolding delete_topic view
view-delete_topic topic gs t l = ground (arith, lookup-delete topic t gs, lookup-nil {V = Member} l)

-- Parameters are no part of the view, and an invalid mode is refused.
pub view-set_params :
    (topic : Text) (gp : GroupParams) (gs : Groups) (t l : Text)
    → view (set_params topic gp gs).1 t l ≡ view gs t l
unfolding set_params view
view-set_params topic gp gs t l = ground (
  arith,
  eq_iff topic t,
  lookup-insert topic t (record (get_or (lookup topic gs) empty_group) { group_params = some gp })
      gs,
)
