-- ===== src/Stores/Group/Examples.antt =====
-- Tests of pubsub/stores/group.go, and its theorems at concrete stores.
use mathlib.Core.List.{Permᴰ}
use zero_comm.Prelude.{Text, text, List, [], ◌∷◌, none, some, ◌≡◌, ◌≢◌, refl, ok, panic, true, ◌⊎◌}
use zero_comm.Prelude.Dict.{Dict, lookup, insert}
use zero_comm.Domain.{Member, GroupParams, Group, single_queue_mode}
use zero_comm.Prelude.Base64.{encode}
use zero_comm.Prelude.Sort.{sort}
use zero_comm.Validator.{calculate}
use zero_comm.Validator.Examples.{
  group_sum, sample, sample-IsDigest, member, alice, bob, carol, group,
}
use zero_comm.Stores.Group.{
  Groups, new_group_store, add_membrs, delete_membr, delete_topic, set_params, membr, membrs,
  checksum, members_of, without_member,
}
use zero_comm.Stores.Group.View.{view, added, view-add_membrs, view-delete_membr, view-delete_topic}
use zero_comm.Stores.Group.Members.{membr-eq-view}
use zero_comm.Stores.Group.Invariant.{
  IsStore, IsStore-new, IsStore-add_membrs, IsStore-delete_membr, IsStore-set_params,
}
use zero_comm.Stores.Group.{params}
use zero_comm.Stores.Group.History.{
  Op, enrol, dismiss, configure, run, replay, settings, run-new_refines,
}
use zero_comm.Stores.Group.Agreement.{checksum_agrees, delete_membr_outcome, add_membrs_outcome}

abbrev chess : Text
chess = text "ch"

-- The store after a group was created with two members.
pub two : Groups
two = (add_membrs sample chess group new_group_store).1

pub two-IsStore : IsStore sample two
unfolding two
two-IsStore =
    IsStore-add_membrs sample sample-IsDigest chess group new_group_store (IsStore-new sample)

view-add_membrs_example :
    view (add_membrs sample chess (member carol ∷ []) two).1 chess carol
    ≡ added chess (member carol ∷ []) (view two) chess carol
view-add_membrs_example = view-add_membrs sample chess (member carol ∷ []) two chess carol

view-delete_membr_example : view (delete_membr sample chess bob two).1 chess bob ≡ none
view-delete_membr_example = view-delete_membr sample chess bob two chess bob

view-delete_topic_example : view (delete_topic chess two) chess bob ≡ none
view-delete_topic_example = view-delete_topic chess two chess bob

membr-eq-view_example : membr chess bob two ≡ view two chess bob
membr-eq-view_example = membr-eq-view chess bob two two-IsStore.shaped

IsStore-add_membrs_example : IsStore sample (add_membrs sample chess (member carol ∷ []) two).1
IsStore-add_membrs_example =
    IsStore-add_membrs sample sample-IsDigest chess (member carol ∷ []) two two-IsStore

IsStore-delete_membr_example : IsStore sample (delete_membr sample chess bob two).1
IsStore-delete_membr_example = IsStore-delete_membr sample sample-IsDigest chess bob two two-IsStore

abbrev single : GroupParams
single = record { order_enabled = true; join_consistent = true; mode = single_queue_mode }

IsStore-set_params_example : IsStore sample (set_params chess single two).1
IsStore-set_params_example = IsStore-set_params sample sample-IsDigest chess single two two-IsStore

-- The same members, added in the other order.
abbrev reversed_group : List Member
reversed_group = member alice ∷ member bob ∷ []

pub reversed : Groups
reversed = (add_membrs sample chess reversed_group new_group_store).1

reversed-IsStore : IsStore sample reversed
unfolding reversed
reversed-IsStore =
    IsStore-add_membrs sample sample-IsDigest chess reversed_group new_group_store
      (IsStore-new sample)

abbrev chess_group : Dict Member → Group
chess_group ms = record {
  topic = [];
  checksum = group_sum;
  members = some ms;
  group_params = none;
  last_updated = 0;
}

abbrev two_members : Dict Member
two_members = (bob, member bob) ∷ (alice, member alice) ∷ []

abbrev reversed_members : Dict Member
reversed_members = (alice, member alice) ∷ (bob, member bob) ∷ []

lookup-two : lookup chess two ≡ some (chess_group two_members)
unfolding two add_membrs lookup insert calculate sort encode
lookup-two = refl

lookup-reversed : lookup chess reversed ≡ some (chess_group reversed_members)
unfolding reversed add_membrs lookup insert calculate sort encode
lookup-reversed = refl

rosters_agree : Permᴰ (membrs chess two) (membrs chess reversed)
unfolding membrs two reversed add_membrs lookup insert calculate sort encode
rosters_agree = Permᴰ.swap refl refl

checksum_agrees_example : checksum chess two ≡ checksum chess reversed
checksum_agrees_example =
    checksum_agrees sample two reversed chess (chess_group two_members)
      (chess_group reversed_members) (bob, member bob) ((alice, member alice) ∷ []) two-IsStore
      reversed-IsStore lookup-two lookup-reversed refl rosters_agree

delete_membr_outcome_example :
    let left = members_of (without_member bob (chess_group two_members)) in
    ((left ≡ []) × ((delete_membr sample chess bob two).0 ≡ panic))
    ⊎ ((left ≢ []) × ((delete_membr sample chess bob two).0 ≡ ok tt))
delete_membr_outcome_example =
    delete_membr_outcome sample sample-IsDigest chess bob two (chess_group two_members) lookup-two

add_membrs_outcome_example : (add_membrs sample chess (member carol ∷ []) two).0 ≡ ok tt
add_membrs_outcome_example = add_membrs_outcome sample sample-IsDigest chess (member carol) [] two

-- bob is added and taken out, and the parameters are set.
abbrev ops : List Op
ops = enrol chess (member bob ∷ []) ∷ dismiss chess bob ∷ configure chess single ∷ []

run-new_refines_example :
    IsStore sample (run sample ops new_group_store)
    × ((t l : Text) → membr t l (run sample ops new_group_store) ≡ replay ops (λ t' l'. none) t l)
    × ((t : Text) → params t (run sample ops new_group_store) ≡ settings ops (λ t'. none) t)
run-new_refines_example = run-new_refines sample ops sample-IsDigest
