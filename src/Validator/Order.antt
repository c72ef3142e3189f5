-- ===== src/Validator/Order.antt =====
-- `order` of pubsub/validator/init.go: the members sorted by their labels.
use mathlib.Core.List.{Permᴰ, Perm, Perm-prop}
use mathlib.Core.Logic.{∥∥₁_elim}
use mathlib.Core.List.Perm
use mathlib.Core.List.Permᴰ
use zero_comm.Prelude.{
  Text, List, [], ◌∷◌, ◌≡◌, ◌≢◌, refl, sym, ap, ◌∙◌, subst, Option, none, some, arith, All, eq_iff,
  All-perm, All-map, first, eq_refl, is_some, Option-cases, true, inl, inr,
}
use zero_comm.Prelude.Sort.{sort, sort-perm, sort-ne-nil, sort-eq_of_perm, sort-IsSorted, IsSorted}
use zero_comm.Domain.{Member}
use zero_comm.Validator.{order, pick, labels, has_label, with_found}

-- No two members have one label, as in a Go map from labels to members.
abbrev pub Distinct : List Member → Type 0
Distinct [] = Unit
Distinct (m ∷ ms) = All (λ x. x.label ≢ m.label) ms × Distinct ms

pub Distinct-perm : {g h : List Member} → Permᴰ g h → Distinct g → Distinct h
Distinct-perm Permᴰ.nil d = tt
Distinct-perm (Permᴰ.cons {b = m} {l₂ = h} e p) d =
    (All-map _ _ h (λ x k. rw (← e) k) (All-perm _ p d.0), Distinct-perm p d.1)
Distinct-perm (Permᴰ.swap {a = a} {b = b} {a' = a'} {b' = b'} {l = l} e f) d = (
  (
    (λ q. d.0.0 (ap (λ (m : Member). m.label) f ∙ sym q ∙ ap (λ (m : Member). m.label) (sym e))),
    All-map _ _ l (λ x k. rw (← f) k) d.1.0,
  ),
  (All-map _ _ l (λ x k. rw (← e) k) d.0.1, d.1.1),
)
Distinct-perm (Permᴰ.trans p q) d = Distinct-perm q (Distinct-perm p d)

abbrev by_label : Text → List Member → Option Member
by_label l = first (has_label l)

by_label-perm :
    (l : Text) {g h : List Member} → Permᴰ g h → Distinct g → by_label l g ≡ by_label l h
by_label-perm l Permᴰ.nil d = refl
by_label-perm l (Permᴰ.cons {a = a} e p) d = rw (← e) (ground (arith, by_label-perm l p d.1))
by_label-perm l (Permᴰ.swap {a = a} {b = b} e f) d =
    rw (← e, ← f) (ground (arith, d.0.0, eq_iff a.label l, eq_iff b.label l))
by_label-perm l (Permᴰ.trans p q) d = by_label-perm l p d ∙ by_label-perm l q (Distinct-perm p d)

pick_of_perm : (ls : List Text) {g h : List Member} → Permᴰ g h → Distinct g → pick g ls ≡ pick h ls
unfolding pick
pick_of_perm [] p d = refl
pick_of_perm (l ∷ ls) p d = rw (by_label-perm l p d, pick_of_perm ls p d)

labels-perm : {g h : List Member} → Permᴰ g h → Permᴰ (labels g) (labels h)
labels-perm Permᴰ.nil = Permᴰ.nil
labels-perm (Permᴰ.cons e p) = Permᴰ.cons (ap (λ (m : Member). m.label) e) (labels-perm p)
labels-perm (Permᴰ.swap e f) =
    Permᴰ.swap (ap (λ (m : Member). m.label) e) (ap (λ (m : Member). m.label) f)
labels-perm (Permᴰ.trans p q) = Permᴰ.trans (labels-perm p) (labels-perm q)

-- The ordered group does not depend on the order in which the map of members was visited.
pub order-eq_of_perm : (g h : List Member) → Permᴰ g h → Distinct g → order g ≡ order h
unfolding order
order-eq_of_perm g h p d =
    rw (sort-eq_of_perm (labels g) (labels h) ∣ labels-perm p ∣₁) (pick_of_perm _ p d)

pick_skip :
    (m : Member) (g : List Member) (ls : List Text)
    → All (λ l. m.label ≢ l) ls
    → pick (m ∷ g) ls ≡ pick g ls
unfolding pick
pick_skip m g [] h = refl
pick_skip m g (l ∷ ls) h = ground (arith, pick_skip m g ls h.1, h.0, eq_iff m.label l)

labels_apart :
    (m : Member) (g : List Member)
    → All (λ x. x.label ≢ m.label) g
    → All (λ l. m.label ≢ l) (labels g)
labels_apart m [] h = tt
labels_apart m (x ∷ g) h = ((λ e. h.0 (sym e)), labels_apart m g h.1)

pick-labels : (g : List Member) → Distinct g → pick g (labels g) ≡ g
unfolding pick
pick-labels [] d = refl
pick-labels (m ∷ g) d =
    ground
      (arith, eq_refl m.label, pick_skip m g (labels g) (labels_apart m g d.0), pick-labels g d.1)

pick-perm : (g : List Member) {ls ks : List Text} → Permᴰ ls ks → Perm (pick g ls) (pick g ks)
unfolding pick
pick-perm g Permᴰ.nil = Perm.rfl
pick-perm g (Permᴰ.cons {a = l} e p) = rw (← e) (with_found-perm (by_label l g) (pick-perm g p))
  where
    with_found-perm :
        (o : Option Member) {xs ys : List Member}
        → Perm xs ys
        → Perm (with_found o xs) (with_found o ys)
    with_found-perm none p = p
    with_found-perm (some m) p = Perm.cons m p
pick-perm g (Permᴰ.swap {a = a} {b = b} {l = ls} e f) =
    rw (← e, ← f) (with_found-swap (by_label a g) (by_label b g) (pick g ls))
  where
    with_found-swap :
        (o q : Option Member) (xs : List Member)
        → Perm (with_found o (with_found q xs)) (with_found q (with_found o xs))
    with_found-swap none q xs = Perm.rfl
    with_found-swap (some m) none xs = Perm.rfl
    with_found-swap (some m) (some n) xs = Perm.swap n m xs
pick-perm g (Permᴰ.trans p q) = Perm.trans (pick-perm g p) (pick-perm g q)

-- Of a group with distinct labels, `order` loses no member and makes none up.
pub order-perm : (g : List Member) → Distinct g → Perm (order g) g
unfolding order
order-perm g d =
    subst (λ xs. Perm (pick g (sort (labels g))) xs) (pick-labels g d)
      (∥∥₁_elim (sort-perm (labels g)) Perm-prop (λ p. pick-perm g p))

by_label-label : (l : Text) (g : List Member) (m : Member) → by_label l g ≡ some m → m.label ≡ l
by_label-label l [] m e = cc
by_label-label l (x ∷ g) m e = ground (arith, eq_iff x.label l, by_label-label l g m)

labels-pick :
    (g : List Member) (ls : List Text)
    → All (λ l. is_some (by_label l g) ≡ true) ls
    → labels (pick g ls) ≡ ls
unfolding pick
labels-pick g [] h = refl
labels-pick g (l ∷ ls) h = elim (Option-cases (by_label l g)) [
  | inl e ↦ cc (e, h.0)
  | inr (m, e) ↦ rw (e, with_found) (cc (by_label-label l g m e, labels-pick g ls h.1))
]

by_label_found : (g : List Member) (m : Member) → is_some (by_label m.label (m ∷ g)) ≡ true
by_label_found g m = ground (arith, eq_refl m.label)

labels_found : (g : List Member) → All (λ l. is_some (by_label l g) ≡ true) (labels g)
labels_found [] = tt
labels_found (m ∷ g) =
    (by_label_found g m, All-map _ _ (labels g) (λ l h. ground arith) (labels_found g))

-- The labels of the ordered group are the sorted labels of the group.
pub labels-order : (g : List Member) → labels (order g) ≡ sort (labels g)
unfolding order
labels-order g =
    ∥∥₁_elim (sort-perm (labels g)) (Texts-set _ _)
      (λ p. labels-pick g (sort (labels g)) (All-perm _ (Permᴰ.symm p) (labels_found g)))
  where
    Texts-set : IsSet (List Text)
    Texts-set = hlevel

-- Of members with distinct labels, `order` returns exactly these members, each once, by ascending
-- labels.
pub order_sorts : (g : List Member) → Distinct g → Perm (order g) g × IsSorted (labels (order g))
order_sorts g d = (order-perm g d, rw (labels-order g) (sort-IsSorted (labels g)))

-- A group with a member is not empty in its ordered form.
pub order-ne-nil : (m : Member) (g : List Member) → order (m ∷ g) ≢ []
order-ne-nil m g e = sort-ne-nil m.label (labels g) (sym (labels-order (m ∷ g)) ∙ ap labels e)
