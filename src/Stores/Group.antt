-- ===== src/Stores/Group.antt =====
-- pubsub/stores/group.go. The lock serialises the methods, so each is one step. A group is reached
-- only through the map, so the pointers in it are not shared, and the map holds the groups.
pub mod View
pub mod Members
pub mod Invariant
pub mod Agreement
pub mod History
pub mod Examples
use zero_comm.Prelude.{
  Text, Bool, true, false, List, [], ◌∷◌, Option, none, some, ◌≡◌, Result, ok, err, panic, deref,
  invalid_mode, get_or, is_some, ◌==◌, first, if◌then◌else◌,
}
use mathlib.Core.Option
use zero_comm.Prelude.Dict.{Dict, lookup, insert, delete, values}
use zero_comm.Prelude.Method.{Method, pure, raise, lift, gets, modify, ◌>>=◌, ◌>>◌}
use zero_comm.Domain.{Member, GroupParams, Group, valid_mode}
use zero_comm.Validator.{Digest, calculate, has_label}

abbrev pub Groups : Type 0
Groups = Dict Group

abbrev pub new_group_store : Groups
new_group_store = []

abbrev pub empty_group : Group
empty_group = record {
  topic = [];
  checksum = [];
  members = none;
  group_params = none;
  last_updated = 0;
}

-- The loop over a nil map makes no round.
abbrev pub members_of : Group → Dict Member
members_of g = get_or g.members []

abbrev pub members_at : Groups → Text → Dict Member
members_at gs topic = members_of (get_or (lookup topic gs) empty_group)

-- One round of the loop of AddMembrs.
abbrev pub add_member : Text → Member → Groups → Groups
add_member topic m gs =
    let g = get_or (lookup topic gs) empty_group in
    insert topic (record g { members = some (insert m.label m (members_of g)) }) gs

unfoldable pub add_members : Text → List Member → Groups → Groups
add_members topic [] gs = gs
add_members topic (m ∷ mems) gs = add_members topic mems (add_member topic m gs)

abbrev pub set_checksum : Text → Group → Result Text → Method Groups (Unit {0})
set_checksum topic g (ok hash) gs = (ok tt, insert topic (record g { checksum = hash }) gs)
set_checksum topic g (err e) gs = (err e, gs)
set_checksum topic g panic gs = (panic, gs)

-- The end of AddMembrs and DeleteMembr: the checksum of the members that the topic has now.
unfoldable pub recalculate : Digest → Text → Method Groups (Unit {0})
recalculate d topic gs = elim (lookup topic gs) [
  | none ↦ (panic, gs)
  | some g ↦ set_checksum topic g (calculate d (values (members_of g))) gs
]

unfoldable pub add_membrs : Digest → Text → List Member → Method Groups (Unit {0})
unfolding add_members recalculate
add_membrs d topic mems = do modify (add_members topic mems); recalculate d topic

abbrev pub without_member : Text → Group → Group
without_member membr g = record g { members = Option.map (delete membr) g.members }

unfoldable pub delete_membr : Digest → Text → Text → Method Groups (Unit {0})
unfolding recalculate
delete_membr d topic membr gs = elim (lookup topic gs) [
  | none ↦ (ok tt, gs)
  | some g ↦ recalculate d topic (insert topic (without_member membr g) gs)
]

unfoldable pub delete_topic : Text → Groups → Groups
delete_topic topic gs = delete topic gs

unfoldable pub joined : Text → Groups → Bool
joined topic gs = is_some (lookup topic gs)

unfoldable pub membrs : Text → Groups → List Member
membrs topic gs = values (members_at gs topic)

unfoldable pub membr : Text → Text → Groups → Option Member
membr topic label gs = first (has_label label) (values (members_at gs topic))

unfoldable pub set_params : Text → GroupParams → Method Groups (Unit {0})
unfolding valid_mode
set_params topic gp gs =
    if valid_mode gp.mode
    then (
      ok tt,
      insert topic (record (get_or (lookup topic gs) empty_group) { group_params = some gp }) gs,
    )
    else (err invalid_mode, gs)

unfoldable pub params : Text → Groups → Option GroupParams
params topic gs = elim (lookup topic gs) [ none ↦ none | some g ↦ g.group_params ]

-- The parameters of a topic, through two pointers that may be nil.
abbrev params! : Text → Groups → Result GroupParams
params! topic gs = elim (lookup topic gs) [ none ↦ panic | some g ↦ deref g.group_params ]

unfoldable pub mode : Text → Groups → Result Text
mode topic gs = elim (params! topic gs) [ ok p ↦ ok p.mode | err e ↦ err e | panic ↦ panic ]

unfoldable pub order_enabled : Text → Groups → Result Bool
order_enabled topic gs = elim (params! topic gs) [
  | ok p ↦ ok p.order_enabled
  | err e ↦ err e
  | panic ↦ panic
]

unfoldable pub join_consistent : Text → Groups → Result Bool
join_consistent topic gs = elim (params! topic gs) [
  | ok p ↦ ok p.join_consistent
  | err e ↦ err e
  | panic ↦ panic
]

unfoldable pub checksum : Text → Groups → Result Text
checksum topic gs = elim (lookup topic gs) [ none ↦ panic | some g ↦ ok g.checksum ]
