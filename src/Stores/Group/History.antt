-- ===== src/Stores/Group/History.antt =====
-- Any sequence of calls of the methods of pubsub/stores/group.go, and the same calls on an abstract
-- group: who has which label in which topic, and the parameters of the topics.
use zero_comm.Prelude.{
  Text, List, [], ◌∷◌, Option, none, some, ◌≡◌, refl, ◌∙◌, arith, Result, ok, err, panic, get_or,
  ◌==◌, eq_iff, if◌then◌else◌, ◌&&◌, Option-cases, inl, inr,
}
use zero_comm.Prelude.Dict.{lookup, insert, lookup-insert, lookup-delete, lookup-nil}
use zero_comm.Domain.{Member, GroupParams, Group, valid_mode}
use zero_comm.Validator.{Digest}
use zero_comm.Validator.Checksum.{IsDigest}
use zero_comm.Stores.Group.{
  Groups, empty_group, new_group_store, set_checksum, add_member, add_members, recalculate,
  add_membrs, delete_membr, delete_topic, set_params, without_member, membr, params,
}
use zero_comm.Stores.Group.View.{
  view, added, added-cong, view-add_membrs, view-delete_membr, view-delete_topic, view-set_params,
}
use zero_comm.Stores.Group.Members.{membr-eq-view}
use zero_comm.Stores.Group.Invariant.{
  IsStore, IsStore-new, IsStore-add_membrs, IsStore-delete_membr, IsStore-delete_topic,
  IsStore-set_params,
}

pub data Op : Type 0 where
  enrol : Text → List Member → Op
  dismiss : Text → Text → Op
  forget : Text → Op
  configure : Text → GroupParams → Op

pub apply : Digest → Op → Groups → Groups
apply d (enrol topic mems) gs = (add_membrs d topic mems gs).1
apply d (dismiss topic label) gs = (delete_membr d topic label gs).1
apply d (forget topic) gs = delete_topic topic gs
apply d (configure topic gp) gs = (set_params topic gp gs).1

unfoldable pub run : Digest → List Op → Groups → Groups
unfolding apply
run d [] gs = gs
run d (op ∷ ops) gs = run d ops (apply d op gs)

-- The abstract group
abbrev pub Has : Type 0
Has = Text → Text → Option Member

abbrev pub Settings : Type 0
Settings = Text → Option GroupParams

abbrev pub effect : Op → Has → Has
effect (enrol topic mems) has t l = added topic mems has t l
effect (dismiss topic label) has t l = if topic == t && label == l then none else has t l
effect (forget topic) has t l = if topic == t then none else has t l
effect (configure topic gp) has t l = has t l

abbrev pub setting : Op → Settings → Settings
setting (enrol topic mems) s t = s t
setting (dismiss topic label) s t = s t
setting (forget topic) s t = if topic == t then none else s t
setting (configure topic gp) s t = if topic == t && valid_mode gp.mode then some gp else s t

pub replay : List Op → Has → Has
replay [] has = has
replay (op ∷ ops) has = replay ops (effect op has)

pub settings : List Op → Settings → Settings
settings [] s = s
settings (op ∷ ops) s = settings ops (setting op s)

-- The parameters under each operation
params-insert :
    (topic t : Text) (g : Group) (gs : Groups)
    → params t (insert topic g gs) ≡ (if topic == t then g.group_params else params t gs)
unfolding params
params-insert topic t g gs = ground (arith, lookup-insert topic t g gs)

params-found :
    (topic : Text) (gs : Groups)
    → (get_or (lookup topic gs) empty_group).group_params ≡ params topic gs
unfolding params
params-found topic gs = ground arith

params-keep :
    (topic t : Text) (g : Group) (gs : Groups)
    → g.group_params ≡ params topic gs
    → params t (insert topic g gs) ≡ params t gs
params-keep topic t g gs e = ground (arith, params-insert topic t g gs, eq_iff topic t)

params-add_members :
    (topic : Text) (mems : List Member) (gs : Groups) (t : Text)
    → params t (add_members topic mems gs) ≡ params t gs
unfolding add_members
params-add_members topic [] gs t = refl
params-add_members topic (m ∷ mems) gs t =
    params-add_members topic mems (add_member topic m gs) t
    ∙ params-keep topic t _ gs (params-found topic gs)

params-set_checksum :
    (topic : Text) (g : Group) (r : Result Text) (gs : Groups) (t : Text)
    → lookup topic gs ≡ some g
    → params t (set_checksum topic g r gs).1 ≡ params t gs
unfolding params
params-set_checksum topic g (ok h) gs t e =
    params-keep topic t (record g { checksum = h }) gs (ground (arith, e))
params-set_checksum topic g (err x) gs t e = refl
params-set_checksum topic g panic gs t e = refl

params-recalculate :
    (d : Digest) (topic : Text) (gs : Groups) (t : Text)
    → params t (recalculate d topic gs).1 ≡ params t gs
unfolding recalculate
params-recalculate d topic gs t = elim (Option-cases (lookup topic gs)) [
  | inl e ↦ rw (e, recalculate) refl
  | inr (g, e) ↦ rw (e, recalculate) (params-set_checksum topic g _ gs t e)
]

params-delete_membr :
    (d : Digest) (topic label : Text) (gs : Groups) (t : Text)
    → params t (delete_membr d topic label gs).1 ≡ params t gs
unfolding delete_membr
params-delete_membr d topic label gs t = elim (Option-cases (lookup topic gs)) [
  | inl e ↦ rw (e, delete_membr) refl
  | inr (g, e) ↦
      rw (e, delete_membr)
        (params-recalculate d topic (insert topic (without_member label g) gs) t
          ∙ params-keep topic t (without_member label g) gs (unfold params in ground (arith, e)))
]

pub params-add_membrs :
    (d : Digest) (topic : Text) (mems : List Member) (gs : Groups) (t : Text)
    → params t (add_membrs d topic mems gs).1 ≡ params t gs
unfolding add_membrs
params-add_membrs d topic mems gs t =
    params-recalculate d topic (add_members topic mems gs) t ∙ params-add_members topic mems gs t

pub params-set_params :
    (topic : Text) (gp : GroupParams) (gs : Groups) (t : Text)
    → params t (set_params topic gp gs).1
      ≡ (if topic == t && valid_mode gp.mode then some gp else params t gs)
unfolding set_params
params-set_params topic gp gs t = ground (
  arith,
  params-insert topic t (record (get_or (lookup topic gs) empty_group) { group_params = some gp })
      gs,
)

params-apply :
    (d : Digest) (op : Op) (gs : Groups) (t : Text)
    → params t (apply d op gs) ≡ setting op (λ u. params u gs) t
unfolding apply
params-apply d (enrol topic mems) gs t = params-add_membrs d topic mems gs t
params-apply d (dismiss topic label) gs t = params-delete_membr d topic label gs t
params-apply d (forget topic) gs t =
    unfold delete_topic in unfold params in ground (arith, lookup-delete topic t gs)
params-apply d (configure topic gp) gs t = params-set_params topic gp gs t

view-apply :
    (d : Digest) (op : Op) (gs : Groups) (t l : Text)
    → view (apply d op gs) t l ≡ effect op (view gs) t l
unfolding apply
view-apply d (enrol topic mems) gs t l = view-add_membrs d topic mems gs t l
view-apply d (dismiss topic label) gs t l = view-delete_membr d topic label gs t l
view-apply d (forget topic) gs t l = view-delete_topic topic gs t l
view-apply d (configure topic gp) gs t l = view-set_params topic gp gs t l

apply-IsStore :
    (d : Digest) → IsDigest d → (op : Op) (gs : Groups) → IsStore d gs → IsStore d (apply d op gs)
unfolding apply
apply-IsStore d k (enrol topic mems) gs h = IsStore-add_membrs d k topic mems gs h
apply-IsStore d k (dismiss topic label) gs h = IsStore-delete_membr d k topic label gs h
apply-IsStore d k (forget topic) gs h = IsStore-delete_topic d k topic gs h
apply-IsStore d k (configure topic gp) gs h = IsStore-set_params d k topic gp gs h

effect-cong :
    (op : Op) (v w : Has)
    → ((t l : Text) → v t l ≡ w t l)
    → (t l : Text) → effect op v t l ≡ effect op w t l
effect-cong (enrol topic mems) v w h t l = added-cong topic mems v w h t l
effect-cong (dismiss topic label) v w h t l = ground (arith, h t l)
effect-cong (forget topic) v w h t l = ground (arith, h t l)
effect-cong (configure topic gp) v w h t l = h t l

setting-cong :
    (op : Op) (v w : Settings)
    → ((t : Text) → v t ≡ w t)
    → (t : Text) → setting op v t ≡ setting op w t
setting-cong (enrol topic mems) v w h t = h t
setting-cong (dismiss topic label) v w h t = h t
setting-cong (forget topic) v w h t = ground (arith, h t)
setting-cong (configure topic gp) v w h t = ground (arith, h t)

-- A store that holds what an abstract group has
pub record Holds (d : Digest) (gs : Groups) (has : Has) (s : Settings) : Type 0 where
  pub store : IsStore d gs
  pub same : (t l : Text) → view gs t l ≡ has t l
  pub set : (t : Text) → params t gs ≡ s t

run-Holds :
    (d : Digest)
    → IsDigest d
    → (ops : List Op) (gs : Groups) (has : Has) (s : Settings) → Holds d gs has s
    → Holds d (run d ops gs) (replay ops has) (settings ops s)
unfolding run replay settings
run-Holds d k [] gs has s h = h
run-Holds d k (op ∷ ops) gs has s h =
    run-Holds d k ops (apply d op gs) (effect op has) (setting op s) (record {
      store = apply-IsStore d k op gs h.store;
      same = λ t l. view-apply d op gs t l ∙ effect-cong op _ _ h.same t l;
      set = λ t. params-apply d op gs t ∙ setting-cong op _ _ h.set t;
    })

-- After any sequence of additions, removals, departures and settings on a new store, Membr finds for
-- each label of each topic the member that the same sequence on an abstract group leaves there, and
-- Params the parameters; and the store is well formed, so its checksums are those of the members.
pub run-new_refines :
    (d : Digest) (ops : List Op)
    → IsDigest d
    → IsStore d (run d ops new_group_store)
      × ((t l : Text) → membr t l (run d ops new_group_store) ≡ replay ops (λ t' l'. none) t l)
      × ((t : Text) → params t (run d ops new_group_store) ≡ settings ops (λ t'. none) t)
run-new_refines d ops k = (
  end.store,
  (λ t l. membr-eq-view t l (run d ops new_group_store) end.store.shaped ∙ end.same t l),
  end.set,
)
  where
    end :
        Holds d (run d ops new_group_store) (replay ops (λ t' l'. none)) (settings ops (λ t'. none))
    end = run-Holds d k ops new_group_store _ _ (record {
      store = IsStore-new d;
      same =
          λ t l. unfold view in ground (arith, lookup-nil {V = Group} t, lookup-nil {V = Member} l);
      set = λ t. unfold params in ground (arith, lookup-nil {V = Group} t);
    })
