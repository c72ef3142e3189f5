-- ===== src/Syncer/Clocks.antt =====
-- The timestamps of pubsub/syncer.go.
use zero_comm.Prelude.{
  ℕ, ◌+◌, ◌≤◌, ◌<◌, Text, Option, none, some, ◌≡◌, ◌≢◌, refl, arith, ok, eq_iff, eq_refl,
}
use zero_comm.Prelude.Dict.{lookup, lookup-insert}
use zero_comm.Syncer.{Ts, GroupMsg, MsgCodec, Syncer, int64_mod, parse, message, advanced}

-- The timestamp of a topic.
abbrev pub clock_of : Text → Syncer → Option Ts
clock_of topic s = lookup topic s.ts_map

-- The next message of an ordered topic carries the timestamp that the topic has from then on: the
-- stored timestamp and one if the clock is behind it, and otherwise the clock's; the sender's id and
-- the other topics stay. The stored timestamp is not the greatest one.
pub message_advances :
    (c : MsgCodec) (topic payload : Text) (now : ℕ) (s : Syncer) (stored : Ts)
    → clock_of topic s ≡ some stored
    → stored.lamp_ts + 1 < int64_mod
    → (next : Ts) × ((message c topic payload now s).0
        ≡ c.marshal (record { ts = next; payload = payload }))
      × (clock_of topic (message c topic payload now s).1 ≡ some next)
      × ((t : Text) → topic ≢ t → clock_of t (message c topic payload now s).1 ≡ clock_of t s)
      × (now < stored.lamp_ts → next.lamp_ts ≡ stored.lamp_ts + 1)
      × (stored.lamp_ts ≤ now → next.lamp_ts ≡ now)
      × (next.sender_id ≡ stored.sender_id)
unfolding message
message_advances c topic payload now s stored e room = (
  advanced now stored,
  rw (e, message) refl,
  rw (e, message) (rw (lookup-insert, eq_refl topic)),
  (λ t ne.
      rw (e, message)
        (ground (arith, lookup-insert topic t (advanced now stored) s.ts_map, eq_iff topic t))),
  (λ behind. ground arith),
  (λ ahead. ground arith),
  refl,
)

-- A received message of an ordered topic yields its payload. Its timestamp becomes the topic's, with
-- its sender id, unless it is older than the topic's, which then stays; other topics keep theirs.
pub parse_witnesses :
    (c : MsgCodec) (topic msg : Text) (s : Syncer) (stored : Ts) (gm : GroupMsg)
    → clock_of topic s ≡ some stored
    → c.unmarshal msg ≡ ok gm
    → let after = (parse c topic msg s).1 in
      ((parse c topic msg s).0 ≡ ok gm.payload)
      × (stored.lamp_ts ≤ gm.ts.lamp_ts → clock_of topic after ≡ some gm.ts)
      × (gm.ts.lamp_ts < stored.lamp_ts → after ≡ s)
      × ((t : Text) → topic ≢ t → clock_of t after ≡ clock_of t s)
unfolding parse
parse_witnesses c topic msg s stored gm e u = (
  rw (e, parse) (rw u refl),
  (λ late.
      rw (e, parse)
        (rw u (ground (arith, lookup-insert topic topic gm.ts s.ts_map, eq_refl topic)))),
  (λ early. rw (e, parse) (rw u (ground arith))),
  λ t ne.
      rw (e, parse) (rw u (ground (arith, lookup-insert topic t gm.ts s.ts_map, eq_iff topic t))),
)

-- A message that is sent right after the receipt of one with a timestamp that is not older than the
-- topic's carries the sender id of the received message, not that of the agent, and the clock's time,
-- or the received timestamp and one if the clock is behind it. The received timestamp is not the
-- greatest one.
pub parse_takes_sender :
    (c : MsgCodec) (topic msg payload : Text) (now : ℕ) (s : Syncer) (stored : Ts) (gm : GroupMsg)
    → clock_of topic s ≡ some stored
    → c.unmarshal msg ≡ ok gm
    → stored.lamp_ts ≤ gm.ts.lamp_ts
    → gm.ts.lamp_ts + 1 < int64_mod
    → (next : Ts) × ((message c topic payload now (parse c topic msg s).1).0
        ≡ c.marshal (record { ts = next; payload = payload }))
      × (next.sender_id ≡ gm.ts.sender_id)
      × (now < gm.ts.lamp_ts → next.lamp_ts ≡ gm.ts.lamp_ts + 1)
      × (gm.ts.lamp_ts ≤ now → next.lamp_ts ≡ now)
unfolding parse message
parse_takes_sender c topic msg payload now s stored gm e u late room = (
  advanced now gm.ts,
  rw (e, parse) (rw u (ground (arith, lookup-insert topic topic gm.ts s.ts_map, eq_refl topic))),
  refl,
  (λ behind. ground arith),
  λ ahead. ground arith,
)

-- Two messages within the second of the stored timestamp carry one and the same timestamp.
pub same_second_same_timestamp :
    (c : MsgCodec) (topic first_payload second_payload : Text) (now : ℕ) (s : Syncer) (stored : Ts)
    → clock_of topic s ≡ some stored
    → stored.lamp_ts ≡ now
    → let after = (message c topic first_payload now s).1 in
      ((message c topic first_payload now s).0
        ≡ c.marshal (record { ts = stored; payload = first_payload }))
      × ((message c topic second_payload now after).0
          ≡ c.marshal (record { ts = stored; payload = second_payload }))
unfolding message
same_second_same_timestamp c topic first_payload second_payload now s stored e at_once = (
  rw (e, message) (ground arith),
  rw (e, message)
      (ground (arith, lookup-insert topic topic (advanced now stored) s.ts_map, eq_refl topic)),
)

-- On a topic without order, both directions pass the content on unchanged and keep the state.
pub unordered_passes :
    (c : MsgCodec) (topic content : Text) (now : ℕ) (s : Syncer)
    → clock_of topic s ≡ none
    → (parse c topic content s ≡ (ok content, s))
      × (message c topic content now s ≡ (ok content, s))
unfolding parse message
unordered_passes c topic content now s e = (rw (e, parse) refl, rw (e, message) refl)
