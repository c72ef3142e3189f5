-- ===== src/Stores/Group/Members.antt =====
-- The members of a topic in pubsub/stores/group.go: each stands under its own label.

use zero_comm.Prelude.{
  Text, List, [], ◌∷◌, Bool, true, false, Option, none, some, ◌≡◌, ◌≢◌, refl, subst, arith, get_or,
  ◌==◌, ◌&&◌, ◌++◌, ◌∙◌, ap, eq_refl, eq_iff, if◌then◌else◌, All, first,
}
use zero_comm.Prelude.Dict.{
  Dict, lookup, insert, delete, values, lookup-insert, IsMap, insert-IsMap, delete-IsMap,
  All-insert, All-delete,
}
use zero_comm.Domain.{Member, Group}
use zero_comm.Validator.{has_label}
use zero_comm.Validator.Order.{Distinct}
use zero_comm.Stores.Group.{
  Groups, members_of, members_at, add_member, add_members, membr, without_member,
}
use zero_comm.Stores.Group.View.{view, added}

-- A Go map from the labels of the members to the members.
pub record IsRoster (ms : Dict Member) : Type 0 where
  pub labelled : All (λ e. e.1.label ≡ e.0) ms
  pub unique : IsMap ms

pub IsRoster-nil : IsRoster []
IsRoster-nil = record { labelled = tt; unique = tt }

pub IsRoster-insert : (m : Member) (ms : Dict Member) → IsRoster ms → IsRoster (insert m.label m ms)
IsRoster-insert m ms h = record {
  labelled = All-insert _ m.label m ms refl h.labelled;
  unique = insert-IsMap m.label m ms h.unique;
}

pub IsRoster-delete : (l : Text) (ms : Dict Member) → IsRoster ms → IsRoster (delete l ms)
IsRoster-delete l ms h = record {
  labelled = All-delete _ l ms h.labelled;
  unique = delete-IsMap l ms h.unique;
}

first-values :
    (l : Text) (ms : Dict Member)
    → All (λ e. e.1.label ≡ e.0) ms
    → first (has_label l) (values ms) ≡ lookup l ms
unfolding lookup
first-values l [] h = refl
first-values l ((k, m) ∷ ms) h = rw h.0 (ground (arith, first-values l ms h.1))

apart_of_absent :
    (k : Text) (ms : Dict Member)
    → All (λ e. e.1.label ≡ e.0) ms
    → lookup k ms ≡ none
    → All (λ m. m.label ≢ k) (values ms)
unfolding lookup
apart_of_absent k [] h e = tt
apart_of_absent k ((j, m) ∷ ms) h e =
    ((λ q. ground (arith, eq_iff j k, h.0)), apart_of_absent k ms h.1 (ground arith))

-- The members of a roster have distinct labels.
pub Distinct-values : (ms : Dict Member) → IsRoster ms → Distinct (values ms)
Distinct-values [] h = tt
Distinct-values ((k, m) ∷ ms) h = (
  rw h.labelled.0 (apart_of_absent k ms h.labelled.1 h.unique.0),
  Distinct-values ms (record { labelled = h.labelled.1; unique = h.unique.1 }),
)

-- The members of every topic form a roster.
pub record IsShaped (gs : Groups) : Type 0 where
  pub roster : (t : Text) → IsRoster (members_at gs t)

members_at-insert :
    (topic : Text) (g : Group) (gs : Groups) (t : Text)
    → members_at (insert topic g gs) t ≡ (if topic == t then members_of g else members_at gs t)
members_at-insert topic g gs t = ground (arith, lookup-insert topic t g gs)

-- A group with a roster keeps the store in shape.
pub IsShaped-insert :
    (topic : Text) (g : Group) (gs : Groups)
    → IsRoster (members_of g)
    → IsShaped gs
    → IsShaped (insert topic g gs)
IsShaped-insert topic g gs r h = record {
  roster = λ t. rw (members_at-insert topic g gs t) (choose t (topic == t));
}
  where
    choose : (t : Text) (b : Bool) → IsRoster (if b then members_of g else members_at gs t)
    choose t true = r
    choose t false = h.roster t

pub IsShaped-add_members :
    (topic : Text) (mems : List Member) (gs : Groups)
    → IsShaped gs
    → IsShaped (add_members topic mems gs)
unfolding add_members
IsShaped-add_members topic [] gs h = h
IsShaped-add_members topic (m ∷ mems) gs h =
    IsShaped-add_members topic mems (add_member topic m gs)
      (IsShaped-insert topic _ gs (IsRoster-insert m (members_at gs topic) (h.roster topic)) h)

pub IsRoster-without :
    (l : Text) (g : Group) → IsRoster (members_of g) → IsRoster (members_of (without_member l g))
IsRoster-without l g h = without g.members refl
  where
    without :
        (o : Option (Dict Member)) → g.members ≡ o → IsRoster (members_of (without_member l g))
    without none e = rw e IsRoster-nil
    without (some ms) e = rw e (IsRoster-delete l ms (subst (λ o. IsRoster (get_or o [])) e h))

-- In a shaped store the search of Membr finds the member that the map has under the label.
pub membr-eq-view :
    (topic label : Text) (gs : Groups) → IsShaped gs → membr topic label gs ≡ view gs topic label
unfolding membr view
membr-eq-view topic label gs h = first-values label (members_at gs topic) (h.roster topic).labelled

-- The first of two entries that is there
abbrev pub or_else : Option Member → Option Member → Option Member
or_else none o = o
or_else (some m) o = some m

-- The members of a roster, added in a row, stand before what was there.
pub added-values :
    (topic : Text) (ms : Dict Member) (v : Text → Text → Option Member) (l : Text)
    → IsRoster ms
    → added topic (values ms) v topic l ≡ or_else (lookup l ms) (v topic l)
unfolding lookup
added-values topic [] v l h = refl
added-values topic ((k, m) ∷ ms) v l h =
    let rest =
      added-values topic ms (λ t' l'. if topic == t' && m.label == l' then some m else v t' l') l
        (record { labelled = h.labelled.1; unique = h.unique.1 }) in
    rest ∙ rw h.labelled.0 (rw (eq_refl topic) (ground (arith, eq_iff k l, h.unique.0)))

added-append :
    (topic : Text) (xs ys : List Member) (v : Text → Text → Option Member) (t l : Text)
    → added topic (xs ++ ys) v t l ≡ added topic ys (λ t' l'. added topic xs v t' l') t l
added-append topic [] ys v t l = refl
added-append topic (x ∷ xs) ys v t l = added-append topic xs ys _ t l

-- One more member after them
pub added-values-one :
    (topic : Text) (ms : Dict Member) (j : Member) (v : Text → Text → Option Member) (l : Text)
    → IsRoster ms
    → added topic (values ms ++ j ∷ []) v topic l
      ≡ (if j.label == l then some j else or_else (lookup l ms) (v topic l))
added-values-one topic ms j v l h =
    added-append topic (values ms) (j ∷ []) v topic l
    ∙ rw (eq_refl topic)
        (ap (λ o. if j.label == l then some j else o) (added-values topic ms v l h))
