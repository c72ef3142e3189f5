-- ===== src/Transport/Sockets/Subscriptions.antt =====
-- What the calls of Sockets leave subscribed.
use zero_comm.Prelude.{
  ℕ, suc, ◌-◌, ◌⊎◌, Text, List, [], ◌∷◌, ◌≡◌, refl, arith, ok, ◌==◌, if◌then◌else◌, false, not,
  ◌||◌, Bool-cases, inl, inr, ap, ◌∙◌, sym,
}
use zero_comm.Prelude.Method.{Method, ◌>>=◌, ◌>>◌, >>=-ok, lift}
use zero_comm.Domain.{Member}
use zero_comm.Stores.Group.{Groups, membrs, mode}
use zero_comm.Transport.Topics.{data_topic, data_topic_in}
use zero_comm.Transport.Messages.{ConnectMsg}
use zero_comm.Transport.Auth.{Zmq}
use zero_comm.Transport.Sockets.{
  unsubscribe_data, unsubscribe_each, unsubscribe_all_data, subscribe_data, connect_data, ends,
}

-- The documented behaviour of the filters of a SUB socket: identical filters are counted, and each
-- removal takes one instance away; connections have no part in it.
pub record Counts {S : Type 0} (z : Zmq S) (filters : Text → S → ℕ) : Type 0 where
  pub adds :
      (t u : Text) (s : S)
      → (z.set_subscribe t s).0 ≡ ok tt
      → filters u (z.set_subscribe t s).1 ≡ (if t == u then suc (filters u s) else filters u s)
  pub takes :
      (t u : Text) (s : S)
      → (z.set_unsubscribe t s).0 ≡ ok tt
      → filters u (z.set_unsubscribe t s).1 ≡ (if t == u then filters u s - 1 else filters u s)
  pub connect_keeps : (e u : Text) (s : S) → filters u (z.connect e s).1 ≡ filters u s
  pub disconnect_keeps : (e u : Text) (s : S) → filters u (z.disconnect e s).1 ≡ filters u s

-- How many of the members are publishers, other than the one with the label, whose data topic for
-- this label is `u`.
pub departures : Text → Text → Text → Text → List Member → ℕ
departures md topic label u [] = 0
departures md topic label u (m ∷ ms) =
    let rest = departures md topic label u ms in
    if m.label == label || not m.publisher
    then rest
    else if data_topic_in md topic m.label label == u
    then suc rest
    else rest

module _ {S : Type 0} (z : Zmq S) (filters : Text → S → ℕ) (c : Counts z filters) (gs : Groups)
    (md topic : Text) (in_mode : mode topic gs ≡ ok md) where
  data_topic-ok :
      (publ sub : Text) → data_topic gs topic publ sub ≡ ok (data_topic_in md topic publ sub)
  unfolding data_topic
  data_topic-ok publ sub = rw in_mode refl

  unsubscribe_data_takes :
      (label u : Text) (m : Member) (s : S)
      → (unsubscribe_data z gs label topic m s).0 ≡ ok tt
      → filters u (unsubscribe_data z gs label topic m s).1
        ≡ (if data_topic_in md topic m.label label == u then filters u s - 1 else filters u s)
  unfolding unsubscribe_data
  unsubscribe_data_takes label u m s h =
      rw (data_topic-ok m.label label) (after (rw (data_topic-ok m.label label) at h))
    where
      dt : Text
      dt = data_topic_in md topic m.label label

      after :
          ((z.set_unsubscribe dt >> z.disconnect m.pub_endpoint) s).0 ≡ ok tt
          → filters u ((z.set_unsubscribe dt >> z.disconnect m.pub_endpoint) s).1
            ≡ (if dt == u then filters u s - 1 else filters u s)
      after h =
          let (_, e, step) = >>=-ok (z.set_unsubscribe dt) (λ _. z.disconnect m.pub_endpoint) s h in
          ap (λ r. filters u r.1) step ∙ c.disconnect_keeps m.pub_endpoint u _ ∙ c.takes dt u s e

  removed_then :
      (label u : Text) (m : Member) (rest : Method S (Unit {0})) (n : ℕ) (s : S)
      → ((s : S) → (rest s).0 ≡ ok tt → filters u (rest s).1 ≡ filters u s - n)
      → ((unsubscribe_data z gs label topic m >> rest) s).0 ≡ ok tt
      → filters u ((unsubscribe_data z gs label topic m >> rest) s).1
        ≡ filters u s - (if data_topic_in md topic m.label label == u then suc n else n)
  removed_then label u m rest n s takes_n h =
      let (_, e, step) = >>=-ok (unsubscribe_data z gs label topic m) (λ _. rest) s h in
      let after = takes_n _ (ap (λ r. r.0) (sym step) ∙ h) in
      ap (λ r. filters u r.1) step
      ∙ after
      ∙ ap (λ k. k - n) (unsubscribe_data_takes label u m s e)
      ∙ ground arith

  each_takes :
      (label u : Text) (ms : List Member) (s : S)
      → (unsubscribe_each z gs label topic ms s).0 ≡ ok tt
      → filters u (unsubscribe_each z gs label topic ms s).1
        ≡ filters u s - departures md topic label u ms
  unfolding unsubscribe_each departures
  each_takes label u [] s h = omega arith
  each_takes label u (m ∷ ms) s h = elim (Bool-cases (m.label == label || not m.publisher)) [
    | inl skip ↦
        rw (skip, departures, unsubscribe_each)
          (each_takes label u ms s (rw (skip, unsubscribe_each) at h))
    | inr left ↦
        rw (left, departures, unsubscribe_each)
          (removed_then label u m _ (departures md topic label u ms) s (each_takes label u ms)
            (rw (left, unsubscribe_each) at h))
  ]

  -- Where the call succeeds, leaving a group takes one instance of a filter away for each publisher
  -- whose data topic it is, other than the agent itself: all of them, if the agent subscribed once
  -- to each publisher, also when these share one topic.
  pub unsubscribe_all_data_takes :
      (label u : Text) (s : S)
      → (unsubscribe_all_data z gs label topic s).0 ≡ ok tt
      → filters u (unsubscribe_all_data z gs label topic s).1
        ≡ filters u s - departures md topic label u (membrs topic gs)
  unfolding unsubscribe_all_data
  unsubscribe_all_data_takes label u s h = each_takes label u (membrs topic gs) s h

  subscribe_data_adds :
      (publ sub u : Text) (s : S)
      → (subscribe_data z gs topic publ sub s).0 ≡ ok tt
      → filters u (subscribe_data z gs topic publ sub s).1
        ≡ (if data_topic_in md topic publ sub == u then suc (filters u s) else filters u s)
  unfolding subscribe_data
  subscribe_data_adds publ sub u s h =
      rw (data_topic-ok publ sub) (c.adds _ u s (rw (data_topic-ok publ sub) at h))

module _ {S : Type 0} (z : Zmq S) (filters : Text → S → ℕ) (c : Counts z filters) (gs : Groups)
    (md : Text) where
  abbrev after_connect : ConnectMsg → Method S (Unit {0})
  after_connect cm = do
    both ← lift (ends cm.initiator cm.peer.label)
    subscribe_data z gs cm.topic both.0 both.1

  connected_adds :
      (cm : ConnectMsg) (u : Text) (s : S)
      → mode cm.topic gs ≡ ok md
      → (after_connect cm s).0 ≡ ok tt
      → (both : Text × Text) × (ends cm.initiator cm.peer.label ≡ ok both)
        × (filters u (after_connect cm s).1 ≡ (
            if data_topic_in md cm.topic both.0 both.1 == u
            then suc (filters u s)
            else filters u s))
  connected_adds cm u s in_mode h =
      let (both, e, step) = >>=-ok (lift (ends cm.initiator cm.peer.label)) _ s h in
      (
        both,
        e,
        ap (λ r. filters u r.1) step
            ∙ subscribe_data_adds z filters c gs md cm.topic in_mode both.0 both.1 u s
                (ap (λ r. r.0) (sym step) ∙ h),
      )

  -- A connection to a publisher that succeeds adds one instance of the filter for the data topic of
  -- the pair, and no other; a connection to another member leaves the filters as they are.
  pub connect_data_adds :
      (cm : ConnectMsg) (u : Text) (s : S)
      → mode cm.topic gs ≡ ok md
      → (connect_data z gs cm s).0 ≡ ok tt
      → ((cm.peer.publisher ≡ false) × (filters u (connect_data z gs cm s).1 ≡ filters u s))
        ⊎ ((both : Text × Text) × (ends cm.initiator cm.peer.label ≡ ok both)
            × (filters u (connect_data z gs cm s).1 ≡ (
                if data_topic_in md cm.topic both.0 both.1 == u
                then suc (filters u s)
                else filters u s)))
  unfolding connect_data
  connect_data_adds cm u s in_mode h = elim (Bool-cases cm.peer.publisher) [
    | inr plain ↦ inl (plain, rw (plain, connect_data) refl)
    | inl publ ↦ inr (rw (publ, connect_data) (added (rw (publ, connect_data) at h)))
  ]
    where
      added :
          ((z.connect cm.peer.pub_endpoint >> after_connect cm) s).0 ≡ ok tt
          → (both : Text × Text) × (ends cm.initiator cm.peer.label ≡ ok both)
            × (filters u ((z.connect cm.peer.pub_endpoint >> after_connect cm) s).1 ≡ (
                if data_topic_in md cm.topic both.0 both.1 == u
                then suc (filters u s)
                else filters u s))
      added h =
          let (_, _, step) = >>=-ok (z.connect cm.peer.pub_endpoint) (λ _. after_connect cm) s h in
          let (both, e, f) = connected_adds cm u _ in_mode (ap (λ r. r.0) (sym step) ∙ h) in
          (
            both,
            e,
            ap (λ r. filters u r.1) step
                ∙ f
                ∙ ap (λ n. if data_topic_in md cm.topic both.0 both.1 == u then suc n else n)
                    (c.connect_keeps cm.peer.pub_endpoint u s),
          )
