-- ===== src/Stores/Group/Agreement.antt =====
-- Results of the methods of pubsub/stores/group.go, and the checksums of two agents' stores.
use mathlib.Core.List.{Permᴰ}
use mathlib.Core.List.Perm
use zero_comm.Prelude.{
  Text, List, [], ◌∷◌, Bool, true, false, Option, some, ◌≡◌, ◌≢◌, refl, sym, ◌∙◌, arith, ok, panic,
  ◌==◌, eq_refl, if◌then◌else◌, Option-cases, inl, inr, ◌⊎◌, ◌&&◌,
}
use zero_comm.Prelude.Base64.{encode, std}
use zero_comm.Prelude.Dict.{Dict, lookup, insert, values, lookup-insert, lookup-nil}
use zero_comm.Domain.{Member, Group}
use zero_comm.Validator.{Digest, calculate, order}
use zero_comm.Validator.Checksum.{
  IsDigest, calculate_outcome, empty_group_panics, calculate-eq_of_perm,
}
use zero_comm.Stores.Group.{
  Groups, members_of, members_at, add_members, set_checksum, recalculate, add_membrs, delete_membr,
  without_member, checksum, membrs,
}
use zero_comm.Validator.Order.{Distinct}
use zero_comm.Stores.Group.Members.{Distinct-values}
use zero_comm.Stores.Group.Invariant.{IsStore, values-nil}
use zero_comm.Stores.Group.View.{view, added, view-add_members}

-- Two stores whose rosters of a topic hold the same members, in whatever order, have the same
-- checksum of the topic.
pub checksum_agrees :
    (d : Digest) (a b : Groups) (topic : Text) (g h : Group) (e : Text × Member) (ms : Dict Member)
    → IsStore d a
    → IsStore d b
    → lookup topic a ≡ some g
    → lookup topic b ≡ some h
    → members_of g ≡ e ∷ ms
    → Permᴰ (membrs topic a) (membrs topic b)
    → checksum topic a ≡ checksum topic b
unfolding checksum membrs
checksum_agrees d a b topic g h e ms s t p q full perm =
    rw (p, q, checksum)
      (sym ((s.summed topic g p).sum e ms full)
        ∙ calculate-eq_of_perm d (values (members_of g)) (values (members_of h)) rosters distinct
        ∙ sum_of (members_of h) refl)
  where
    at_a : members_at a topic ≡ members_of g
    at_a = rw p refl

    at_b : members_at b topic ≡ members_of h
    at_b = rw q refl

    rosters : Permᴰ (values (members_of g)) (values (members_of h))
    rosters = rw (← at_a, ← at_b) perm

    distinct : Distinct (values (members_of g))
    distinct = rw (← at_a) (Distinct-values (members_at a topic) (s.shaped.roster topic))

    sum_of :
        (ns : Dict Member) → members_of h ≡ ns → calculate d (values (members_of h)) ≡ ok h.checksum
    sum_of [] r = absurd (cc (Perm.eq-nil ∣ rw (full, r) at rosters ∣₁))
    sum_of (n ∷ ns) r = (t.summed topic h q).sum n ns r

module _ (d : Digest) (k : IsDigest d) where
  recalculate_outcome :
      (topic : Text) (gs : Groups) (g : Group)
      → lookup topic gs ≡ some g
      → ((members_of g ≡ []) × ((recalculate d topic gs).0 ≡ panic))
        ⊎ ((members_of g ≢ []) × ((recalculate d topic gs).0 ≡ ok tt))
  unfolding recalculate
  recalculate_outcome topic gs g e =
      rw (e, recalculate) (by_sum (calculate_outcome d k (values (members_of g))))
    where
      by_sum :
          ((values (members_of g) ≡ []) × (calculate d (values (members_of g)) ≡ panic))
            ⊎ ((b : Text) × (d.marshal (order (values (members_of g))) ≡ ok b)
                × (calculate d (values (members_of g)) ≡ ok (encode std (d.sha256 b))))
          → ((members_of g ≡ [])
              × ((set_checksum topic g (calculate d (values (members_of g))) gs).0 ≡ panic))
            ⊎ ((members_of g ≢ [])
                × ((set_checksum topic g (calculate d (values (members_of g))) gs).0 ≡ ok tt))
      by_sum (inl (empty, p)) = inl (values-nil (members_of g) empty, rw p refl)
      by_sum (inr (b, m, p)) = inr ((λ q. cc (p, q, empty_group_panics d k)), rw p refl)

  -- DeleteMembr on a topic of the store panics if it takes the last member, and otherwise returns
  -- no error.
  pub delete_membr_outcome :
      (topic label : Text) (gs : Groups) (g : Group)
      → lookup topic gs ≡ some g
      → let left = members_of (without_member label g) in
        ((left ≡ []) × ((delete_membr d topic label gs).0 ≡ panic))
        ⊎ ((left ≢ []) × ((delete_membr d topic label gs).0 ≡ ok tt))
  unfolding delete_membr
  delete_membr_outcome topic label gs g e =
      rw (e, delete_membr)
        (recalculate_outcome topic (insert topic (without_member label g) gs)
          (without_member label g) (rw (lookup-insert, eq_refl topic)))

  added_member :
      (topic : Text) (m : Member) (mems : List Member) (v : Text → Text → Option Member)
      → (n : Member) × (added topic (m ∷ mems) v topic m.label ≡ some n)
  added_member topic m mems v = last mems _ (m, ground (arith, eq_refl topic, eq_refl m.label))
    where
      last :
          (mems : List Member) (w : Text → Text → Option Member)
          → ((n : Member) × (w topic m.label ≡ some n))
          → (n : Member) × (added topic mems w topic m.label ≡ some n)
      last [] w h = h
      last (x ∷ mems) w h = last mems _ (over (x.label == m.label) h)
        where
          over :
              (b : Bool)
              → ((n : Member) × (w topic m.label ≡ some n))
              → (n : Member) × ((if topic == topic && b then some x else w topic m.label) ≡ some n)
          over true h = (x, ground (arith, eq_refl topic))
          over false h = (h.0, ground (arith, eq_refl topic, h.1))

  added_to_roster :
      (topic : Text) (m : Member) (mems : List Member) (gs : Groups)
      → (n : Member) × (view (add_members topic (m ∷ mems) gs) topic m.label ≡ some n)
  added_to_roster topic m mems gs =
      let (n, e) = added_member topic m mems (view gs) in
      (n, view-add_members topic (m ∷ mems) gs topic m.label ∙ e)

  recalculated :
      (topic label : Text) (gs : Groups)
      → ((n : Member) × (view gs topic label ≡ some n))
      → (recalculate d topic gs).0 ≡ ok tt
  unfolding view
  recalculated topic label gs (n, v) = elim (Option-cases (lookup topic gs)) [
    | inl e ↦ cc (rw e at v, lookup-nil {V = Member} label)
    | inr (g, e) ↦ elim (recalculate_outcome topic gs g e) [
      | inl (empty, p) ↦ cc (rw (e, empty) at v, lookup-nil {V = Member} label)
      | inr (full, p) ↦ p
    ]
  ]

  -- AddMembrs returns no error when it is given a member.
  pub add_membrs_outcome :
      (topic : Text) (m : Member) (mems : List Member) (gs : Groups)
      → (add_membrs d topic (m ∷ mems) gs).0 ≡ ok tt
  unfolding add_membrs
  add_membrs_outcome topic m mems gs =
      recalculated topic m.label (add_members topic (m ∷ mems) gs) (added_to_roster topic m mems gs)
