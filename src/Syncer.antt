-- ===== src/Syncer.antt =====
-- pubsub/syncer.go: Lamport timestamps. An int64 `v` is the number `v + 2 ^ 63`, so that the order is
-- that of ℕ and an addition wraps at `2 ^ 64`; the clock is an argument in the same form. The mutex
-- makes each method one step.
pub mod Clocks
pub mod Causality
pub mod Examples
use zero_comm.Prelude.{
  ℕ, ◌+◌, ◌%◌, ◌^◌, Text, Option, none, some, List, [], Result, ok, err, panic, Codec, leb, ltb,
  if◌then◌else◌,
}
use zero_comm.Prelude.Dict.{Dict, lookup, insert}
use zero_comm.Prelude.Method.{Method}

pub record Ts : Type 0 where
  pub sender_id : ℕ
  pub lamp_ts : ℕ

pub record GroupMsg : Type 0 where
  pub ts : Ts
  pub payload : Text

abbrev pub MsgCodec : Type 0
MsgCodec = Codec GroupMsg

-- The map holds pointers that only the syncer has, so a write through one is a write to the map.
pub record Syncer : Type 0 where
  pub id : ℕ
  pub ts_map : Dict Ts

abbrev pub int64_mod : ℕ
int64_mod = 2 ^ 64

abbrev pub max_id : ℕ
max_id = 10000000

-- `drawn` is the number of the random source.
pub new_syncer : ℕ → Syncer
new_syncer drawn = record { id = drawn % max_id; ts_map = [] }

unfoldable pub init : Text → ℕ → Syncer → Syncer
init topic now s = record s {
  ts_map = insert topic (record { sender_id = s.id; lamp_ts = now }) s.ts_map;
}

abbrev parse_ordered : Text → Ts → Result GroupMsg → Method Syncer Text
parse_ordered topic stored (ok gm) s = (
  ok gm.payload,
  if leb stored.lamp_ts gm.ts.lamp_ts then record s { ts_map = insert topic gm.ts s.ts_map } else s,
)
parse_ordered topic stored (err e) s = (err e, s)
parse_ordered topic stored panic s = (panic, s)

unfoldable pub parse : MsgCodec → Text → Text → Method Syncer Text
parse c topic msg s = elim (lookup topic s.ts_map) [
  | none ↦ (ok msg, s)
  | some stored ↦ parse_ordered topic stored (c.unmarshal msg) s
]

-- The timestamp of the next message.
unfoldable pub advanced : ℕ → Ts → Ts
advanced now stored = record stored {
  lamp_ts = if ltb now stored.lamp_ts then (stored.lamp_ts + 1) % int64_mod else now;
}

unfoldable pub message : MsgCodec → Text → Text → ℕ → Method Syncer Text
unfolding advanced
message c topic payload now s = elim (lookup topic s.ts_map) [
  | none ↦ (ok payload, s)
  | some stored ↦ (
    c.marshal (record { ts = advanced now stored; payload = payload }),
    record s { ts_map = insert topic (advanced now stored) s.ts_map },
  )
]
