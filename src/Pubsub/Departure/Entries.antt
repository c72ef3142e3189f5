-- ===== src/Pubsub/Departure/Entries.antt =====
-- The messages of a status: compressStatus of pubsub/agent.go packs one for each other member, and the
-- loop of the handler in pubsub/processor.go picks the receiver's.
use zero_comm.Prelude.{
  Text, Bool, false, List, [], ◌∷◌, some, ◌≡◌, ◌≢◌, refl, ◌∙◌, ap, arith, ok, All, ◌==◌, eq_iff,
  eq_refl, if◌then◌else◌, Bool-cases, inl, inr, ◌⊎◌,
}
use zero_comm.Prelude.Dict.{Dict, lookup, insert, lookup-insert, All-insert}
use zero_comm.Domain.{Member}
use zero_comm.Pubsub.Node.{Outside}
use zero_comm.Pubsub.Processor.{intended}
use zero_comm.Pubsub.Agent.{pack_each, pack_entry}

-- The label is that of a member.
abbrev pub Among : Text → List Member → Type 0
Among to [] = ⊥
Among to (m ∷ ms) = (m.label ≡ to) ⊎ Among to ms

module _ (me : Text) (ids sealed : Text → Text) where
  -- What the loop adds for the members
  pub entries : List Member → Dict Text → Dict Text
  entries [] msgs = msgs
  entries (m ∷ ms) msgs =
      entries ms (if m.label == me then msgs else insert (ids m.label) (sealed m.label) msgs)

  pub pack_each_lem :
      (o : Outside) (byts : Text) (ms : List Member) (msgs : Dict Text)
      → ((m : Member) → pack_entry o m byts ≡ ok (ids m.label, sealed m.label))
      → pack_each o me byts ms msgs ≡ ok (entries ms msgs)
  unfolding pack_each entries
  pack_each_lem o byts [] msgs packs = refl
  pack_each_lem o byts (m ∷ ms) msgs packs = elim (Bool-cases (m.label == me)) [
    | inl own ↦ rw own (pack_each_lem o byts ms msgs packs)
    | inr other ↦ rw other (rw (packs m) (pack_each_lem o byts ms _ packs))
  ]

  abbrev IsEntry : Text × Text → Type 0
  IsEntry e = (l : Text) × (e.0 ≡ ids l) × (e.1 ≡ sealed l)

  entries-All :
      (ms : List Member) (msgs : Dict Text) → All IsEntry msgs → All IsEntry (entries ms msgs)
  unfolding entries
  entries-All [] msgs h = h
  entries-All (m ∷ ms) msgs h = elim (Bool-cases (m.label == me)) [
    | inl own ↦ rw own (entries-All ms msgs h)
    | inr other ↦ rw other (
        entries-All ms _
          (All-insert IsEntry (ids m.label) (sealed m.label) msgs (m.label, refl, refl) h))
  ]

  module _ (valid : Text → Bool) (to : Text) (own : (l : Text) → valid (ids l) ≡ (l == to)) where
    same_label : (l : Text) → ids l ≡ ids to → l ≡ to
    same_label l e = (eq_iff l to).0 (rw (← own l) (rw e (rw (own to) (eq_refl to))))

    lookup-entries_kept :
        (ms : List Member) (msgs : Dict Text)
        → lookup (ids to) msgs ≡ some (sealed to)
        → lookup (ids to) (entries ms msgs) ≡ some (sealed to)
    unfolding entries
    lookup-entries_kept [] msgs e = e
    lookup-entries_kept (m ∷ ms) msgs e = elim (Bool-cases (m.label == me)) [
      | inl self ↦ rw self (lookup-entries_kept ms msgs e)
      | inr other ↦ rw other (lookup-entries_kept ms _ (added m))
    ]
      where
        added :
            (m : Member)
            → lookup (ids to) (insert (ids m.label) (sealed m.label) msgs) ≡ some (sealed to)
        added m = elim (Bool-cases (ids m.label == ids to)) [
          | inl hit ↦
              rw (lookup-insert (ids m.label) (ids to) (sealed m.label) msgs)
                (rw hit (ap (λ l. some (sealed l)) (same_label m.label ((eq_iff _ _).0 hit))))
          | inr miss ↦ rw (lookup-insert (ids m.label) (ids to) (sealed m.label) msgs) (rw miss e)
        ]

    lookup-entries :
        (ms : List Member) (msgs : Dict Text)
        → to ≢ me
        → Among to ms
        → lookup (ids to) (entries ms msgs) ≡ some (sealed to)
    unfolding entries
    lookup-entries [] msgs ne among = absurd among
    lookup-entries (m ∷ ms) msgs ne (inl e) =
        let other : (m.label == me) ≡ false = ground (arith, eq_iff m.label me, e) in
        rw other (
          lookup-entries_kept ms _ (
            rw (lookup-insert (ids m.label) (ids to) (sealed m.label) msgs)
              (rw e (rw (eq_refl (ids to)) refl))))
    lookup-entries (m ∷ ms) msgs ne (inr among) = lookup-entries ms _ ne among

    intended-of_entry :
        (msgs : Dict Text)
        → All IsEntry msgs
        → lookup (ids to) msgs ≡ some (sealed to)
        → intended valid msgs ≡ sealed to
    unfolding intended lookup
    intended-of_entry [] h e = cc
    intended-of_entry ((k, v) ∷ msgs) ((l, ek, ev), h) e = elim (Bool-cases (l == to)) [
      | inl hit ↦ rw ek (rw (own l) (rw hit (ev ∙ ap sealed ((eq_iff l to).0 hit))))
      | inr miss ↦ rw ek (
          rw (own l) (
            rw miss (
              intended-of_entry msgs h
                (ground (arith, eq_iff k (ids to), eq_iff l to, same_label l)))))
    ]

    -- A receiver that has, of the connections under which a status was packed, only its own, finds in
    -- the status the message that was packed for it.
    pub intended-entries :
        (ms : List Member) → to ≢ me → Among to ms → intended valid (entries ms []) ≡ sealed to
    intended-entries ms ne among =
        intended-of_entry (entries ms []) (entries-All ms [] tt) (lookup-entries ms [] ne among)
