-- ===== src/Syncer/Causality.antt =====
-- A message and a reply to it over the syncers of two agents, pubsub/syncer.go.
use zero_comm.Prelude.{
  ℕ, ◌+◌, ◌≤◌, ◌<◌, Text, some, none, ◌≡◌, ◌≢◌, refl, arith, ok, eq_refl, leb, if◌then◌else◌,
  RoundTrips, ◌⊎◌, inl, inr, sym,
}
use zero_comm.Prelude.Dict.{lookup-insert}
use zero_comm.Syncer.{Ts, GroupMsg, MsgCodec, Syncer, int64_mod, parse, message, advanced}
use zero_comm.Syncer.Clocks.{clock_of}

-- What a receiver's topic has after a timestamp was received
abbrev pub later : Ts → Ts → Ts
later stored received = if leb stored.lamp_ts received.lamp_ts then received else stored

received_clock :
    (c : MsgCodec) (topic body : Text) (r : Syncer) (stored : Ts) (gm : GroupMsg)
    → clock_of topic r ≡ some stored
    → c.unmarshal body ≡ ok gm
    → clock_of topic (parse c topic body r).1 ≡ some (later stored gm.ts)
unfolding parse
received_clock c topic body r stored gm e u =
    rw (e, parse) (rw u (ground (arith, lookup-insert topic topic gm.ts r.ts_map, eq_refl topic)))

pub advanced_after :
    (now : ℕ) (stored : Ts)
    → stored.lamp_ts + 1 < int64_mod
    → (stored.lamp_ts ≤ (advanced now stored).lamp_ts)
      × (now ≢ stored.lamp_ts → stored.lamp_ts < (advanced now stored).lamp_ts)
unfolding advanced
advanced_after now stored room = ground arith

-- The topic is ordered at both agents or at neither.
abbrev pub Alike : Text → Syncer → Syncer → Type 0
Alike topic s r =
    ((clock_of topic s ≡ none) × (clock_of topic r ≡ none))
    ⊎ ((a : Ts) × (b : Ts) × (clock_of topic s ≡ some a) × (clock_of topic r ≡ some b))

module _ (c : MsgCodec) (trips : RoundTrips c) (topic msg : Text) (now : ℕ) (s r : Syncer) where
  -- Where a topic is ordered at both agents, a message comes out of the receiver's parse as it went
  -- into the sender's message. The reply of the receiver has no smaller timestamp than the message, nor
  -- than the receiver had before, and a greater one than both unless its clock stands at the topic's
  -- timestamp. No timestamp is the greatest one.
  pub reply_follows :
      (later_now : ℕ) (a b : Ts)
      → clock_of topic s ≡ some a
      → clock_of topic r ≡ some b
      → b.lamp_ts + 1 < int64_mod
      → (advanced now a).lamp_ts + 1 < int64_mod
      → let sent = advanced now a in
        (body : Text) × (seen : Ts) × ((message c topic msg now s).0 ≡ ok body)
        × ((parse c topic body r).0 ≡ ok msg)
        × (clock_of topic (parse c topic body r).1 ≡ some seen)
        × (sent.lamp_ts ≤ (advanced later_now seen).lamp_ts)
        × (b.lamp_ts ≤ (advanced later_now seen).lamp_ts)
        × (later_now ≢ seen.lamp_ts
            → (sent.lamp_ts < (advanced later_now seen).lamp_ts)
              × (b.lamp_ts < (advanced later_now seen).lamp_ts))
  unfolding message parse
  reply_follows later_now a b ea eb room_b room =
      let (body, m, u) = trips.trips (record { ts = advanced now a; payload = msg }) in
      let seen : Ts = later b (advanced now a) in
      let (ge, gt) = advanced_after later_now seen (ground arith) in
      (
        body,
        seen,
        rw (ea, message) m,
        rw (eb, parse) (rw u refl),
        received_clock c topic body r b _ eb u,
        ground arith,
        ground arith,
        λ other. let strictly = gt other in (ground arith, ground arith),
      )

  -- What one agent's message makes, the other's parse takes apart.
  pub parse-message :
      (body : Text)
      → Alike topic s r
      → (message c topic msg now s).0 ≡ ok body
      → (parse c topic body r).0 ≡ ok msg
  unfolding message parse
  parse-message body (inl (es, er)) made = rw (er, parse) (sym (rw (es, message) at made))
  parse-message body (inr (a, b, ea, eb)) made =
      let (t, m, u) = trips.trips (record { ts = advanced now a; payload = msg }) in
      let same : t ≡ body = cc (rw (ea, message) at made) in
      rw (eb, parse) (rw (← same) (rw u refl))
