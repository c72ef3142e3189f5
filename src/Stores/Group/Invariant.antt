-- ===== src/Stores/Group/Invariant.antt =====
-- What every method of pubsub/stores/group.go keeps: rosters, and checksums that are up to date.
use zero_comm.Prelude.{
  Text, List, [], ◌∷◌, Bool, true, false, none, some, ◌≡◌, ◌≢◌, refl, ap, arith, Result, ok, err,
  panic, get_or, ◌==◌, eq_iff, eq_refl, if◌then◌else◌, Option-cases, inl, inr, Bool-cases, subst,
  ◌⊎◌,
}
use zero_comm.Prelude.Dict.{
  Dict, lookup, insert, delete, values, lookup-insert, lookup-delete, lookup-nil,
}
use zero_comm.Domain.{Member, GroupParams, Group, valid_mode}
use zero_comm.Validator.{Digest, calculate, order}
use zero_comm.Prelude.Base64.{encode, std}
use zero_comm.Validator.Checksum.{IsDigest, calculate_outcome}
use zero_comm.Stores.Group.{
  Groups, empty_group, new_group_store, members_of, members_at, add_member, add_members,
  set_checksum, recalculate, add_membrs, delete_membr, delete_topic, set_params, without_member,
}
use zero_comm.Stores.Group.Members.{
  IsRoster, IsRoster-nil, IsRoster-without, IsShaped, IsShaped-insert, IsShaped-add_members,
}

-- A group with members holds the checksum of these members.
pub record IsSummed (d : Digest) (g : Group) : Type 0 where
  pub sum :
      (e : Text × Member) (ms : Dict Member)
      → members_of g ≡ e ∷ ms
      → calculate d (values (members_of g)) ≡ ok g.checksum

pub record IsStore (d : Digest) (gs : Groups) : Type 0 where
  pub shaped : IsShaped gs
  pub summed : (t : Text) (g : Group) → lookup t gs ≡ some g → IsSummed d g

-- The checksums of all topics but one are up to date.
record SummedBut (d : Digest) (topic : Text) (gs : Groups) : Type 0 where
  others : (t : Text) (g : Group) → topic ≢ t → lookup t gs ≡ some g → IsSummed d g

SummedBut-insert :
    (d : Digest) (topic : Text) (g : Group) (gs : Groups)
    → SummedBut d topic gs
    → SummedBut d topic (insert topic g gs)
SummedBut-insert d topic g gs h = record {
  others = λ t x ne e. h.others t x ne (ground (arith, lookup-insert topic t g gs, eq_iff topic t));
}

SummedBut-add_members :
    (d : Digest) (topic : Text) (mems : List Member) (gs : Groups)
    → SummedBut d topic gs
    → SummedBut d topic (add_members topic mems gs)
unfolding add_members
SummedBut-add_members d topic [] gs h = h
SummedBut-add_members d topic (m ∷ mems) gs h =
    SummedBut-add_members d topic mems (add_member topic m gs) (SummedBut-insert d topic _ gs h)

IsSummed-everywhere :
    (d : Digest) (topic : Text) (gs : Groups)
    → SummedBut d topic gs
    → ((g : Group) → lookup topic gs ≡ some g → IsSummed d g)
    → (t : Text) (g : Group) → lookup t gs ≡ some g
    → IsSummed d g
IsSummed-everywhere d topic gs h k t g e = elim (Bool-cases (topic == t)) [
  | inl same ↦ k g (rw ((eq_iff topic t).0 same) e)
  | inr other ↦ h.others t g (λ q. ground (arith, eq_iff topic t)) e
]

pub values-nil : (ms : Dict Member) → values ms ≡ [] → ms ≡ []
values-nil [] e = refl
values-nil (m ∷ ms) e = cc

unchanged :
    (d : Digest) (topic : Text) (g : Group) (gs : Groups)
    → IsShaped gs
    → SummedBut d topic gs
    → lookup topic gs ≡ some g
    → members_of g ≡ []
    → IsStore d gs
unchanged d topic g gs s b e none_left = record {
  shaped = s;
  summed = IsSummed-everywhere d topic gs b (λ x p. record { sum = λ y ms q. ground arith });
}

abbrev with_params : GroupParams → Text → Groups → Group
with_params gp topic gs = record (get_or (lookup topic gs) empty_group) { group_params = some gp }

module _ (d : Digest) (k : IsDigest d) where
  IsStore-set_checksum :
      (topic : Text) (g : Group) (gs : Groups) (r : Result Text)
      → IsShaped gs
      → SummedBut d topic gs
      → lookup topic gs ≡ some g
      → calculate d (values (members_of g)) ≡ r
      → (members_of g ≡ []) ⊎ ((h : Text) × (r ≡ ok h))
      → IsStore d (set_checksum topic g r gs).1
  IsStore-set_checksum topic g gs (ok h) s b e q o = record {
    shaped = IsShaped-insert topic _ gs (subst IsRoster (here e) (s.roster topic)) s;
    summed = IsSummed-everywhere d topic _ (SummedBut-insert d topic _ gs b) (λ x p.
        subst (IsSummed d)
          (ground (arith, lookup-insert topic topic (record g { checksum = h }) gs, eq_refl topic))
          (summed_now q));
  }
    where
      here : lookup topic gs ≡ some g → members_at gs topic ≡ members_of g
      here e = rw e refl

      summed_now :
          calculate d (values (members_of g)) ≡ ok h → IsSummed d (record g { checksum = h })
      summed_now q = record { sum = λ e ms _. q }
  IsStore-set_checksum topic g gs (err x) s b e q (inl none_left) =
      unchanged d topic g gs s b e none_left
  IsStore-set_checksum topic g gs (err x) s b e q (inr (h, p)) = cc
  IsStore-set_checksum topic g gs panic s b e q (inl none_left) =
      unchanged d topic g gs s b e none_left
  IsStore-set_checksum topic g gs panic s b e q (inr (h, p)) = cc

  IsStore-recalculate :
      (topic : Text) (gs : Groups)
      → IsShaped gs
      → SummedBut d topic gs
      → IsStore d (recalculate d topic gs).1
  unfolding recalculate
  IsStore-recalculate topic gs s b = elim (Option-cases (lookup topic gs)) [
    | inl e ↦
        rw (e, recalculate)
          (record {
            shaped = s;
            summed = IsSummed-everywhere d topic gs b (λ g p. absurd (cc (e, p)));
          })
    | inr (g, e) ↦
        rw (e, recalculate)
          (IsStore-set_checksum topic g gs _ s b e refl
            (none_or_sum g (calculate_outcome d k (values (members_of g)))))
  ]
    where
      none_or_sum :
          (g : Group)
          → ((values (members_of g) ≡ []) × (calculate d (values (members_of g)) ≡ panic))
            ⊎ ((b : Text) × (d.marshal (order (values (members_of g))) ≡ ok b)
                × (calculate d (values (members_of g)) ≡ ok (encode std (d.sha256 b))))
          → (members_of g ≡ []) ⊎ ((h : Text) × (calculate d (values (members_of g)) ≡ ok h))
      none_or_sum g (inl (empty, p)) = inl (values-nil (members_of g) empty)
      none_or_sum g (inr (b, m, p)) = inr (encode std (d.sha256 b), p)

  summed_others : (topic : Text) (gs : Groups) → IsStore d gs → SummedBut d topic gs
  summed_others topic gs h = record { others = λ t g _ e. h.summed t g e }

  -- AddMembrs keeps the rosters and the checksums, whatever members it is given.
  pub IsStore-add_membrs :
      (topic : Text) (mems : List Member) (gs : Groups)
      → IsStore d gs
      → IsStore d (add_membrs d topic mems gs).1
  unfolding add_membrs
  IsStore-add_membrs topic mems gs h =
      IsStore-recalculate topic (add_members topic mems gs)
        (IsShaped-add_members topic mems gs h.shaped)
        (SummedBut-add_members d topic mems gs (summed_others topic gs h))

  -- So does DeleteMembr, also where it panics.
  pub IsStore-delete_membr :
      (topic label : Text) (gs : Groups)
      → IsStore d gs
      → IsStore d (delete_membr d topic label gs).1
  unfolding delete_membr
  IsStore-delete_membr topic label gs h = elim (Option-cases (lookup topic gs)) [
    | inl e ↦ rw (e, delete_membr) h
    | inr (g, e) ↦
        rw (e, delete_membr)
          (IsStore-recalculate topic (insert topic (without_member label g) gs)
            (IsShaped-insert topic _ gs
              (IsRoster-without label g (
                subst IsRoster (ap (λ o. members_of (get_or o empty_group)) e)
                  (h.shaped.roster topic)))
              h.shaped)
            (SummedBut-insert d topic _ gs (summed_others topic gs h)))
  ]

  pub IsStore-delete_topic :
      (topic : Text) (gs : Groups) → IsStore d gs → IsStore d (delete_topic topic gs)
  unfolding delete_topic
  IsStore-delete_topic topic gs h = record {
    shaped = record { roster = λ t. at t (topic == t) (lookup-delete topic t gs) };
    summed = λ t g e. h.summed t g (ground (arith, lookup-delete topic t gs));
  }
    where
      at :
          (t : Text) (b : Bool)
          → lookup t (delete topic gs) ≡ (if b then none else lookup t gs)
          → IsRoster (members_at (delete topic gs) t)
      at t true e = rw e IsRoster-nil
      at t false e = rw e (h.shaped.roster t)

  IsSummed-or_empty :
      (topic : Text) (gs : Groups)
      → IsStore d gs
      → IsSummed d (get_or (lookup topic gs) empty_group)
  IsSummed-or_empty topic gs h = elim (Option-cases (lookup topic gs)) [
    | inl e ↦ rw e (record { sum = λ y ms q. cc q })
    | inr (g, e) ↦ rw e (h.summed topic g e)
  ]

  pub IsStore-set_params :
      (topic : Text) (gp : GroupParams) (gs : Groups)
      → IsStore d gs
      → IsStore d (set_params topic gp gs).1
  unfolding set_params
  IsStore-set_params topic gp gs h = elim (Bool-cases (valid_mode gp.mode)) [
    | inl e ↦
        rw (e, set_params)
          (record {
            shaped = IsShaped-insert topic _ gs (h.shaped.roster topic) h.shaped;
            summed =
                IsSummed-everywhere d topic _
                  (SummedBut-insert d topic _ gs (summed_others topic gs h))
                  (λ x p.
                    subst (IsSummed d) {x = with_params gp topic gs}
                      (ground (
                        arith,
                        lookup-insert topic topic (with_params gp topic gs) gs,
                        eq_refl topic,
                      ))
                      (record { sum = λ y ms q. (IsSummed-or_empty topic gs h).sum y ms q }));
          })
    | inr e ↦ rw (e, set_params) h
  ]

pub IsStore-new : (d : Digest) → IsStore d new_group_store
IsStore-new d = record {
  shaped = record { roster = λ t. rw (lookup-nil {V = Group} t) IsRoster-nil };
  summed = λ t g e. cc (e, lookup-nil {V = Group} t);
}
