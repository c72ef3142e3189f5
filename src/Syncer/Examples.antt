-- ===== src/Syncer/Examples.antt =====
-- The theorems of pubsub/syncer.go at a concrete topic.
use zero_comm.Prelude.{
  Text, text, [], ◌∷◌, none, some, ◌≡◌, ◌≢◌, ◌<◌, ◌≤◌, ◌+◌, refl, arith, Result, ok, err,
  unmarshalling, RoundTrips,
}
use zero_comm.Syncer.Causality.{reply_follows}
use zero_comm.Prelude.Dict.{lookup}
use zero_comm.Syncer.{Ts, GroupMsg, MsgCodec, Syncer, parse, message, advanced}
use zero_comm.Syncer.Clocks.{
  clock_of, message_advances, parse_witnesses, parse_takes_sender, same_second_same_timestamp,
  unordered_passes,
}

-- A stand-in for JSON: the payload behind the two numbers.
abbrev unmarshal_sample : Text → Result GroupMsg
unmarshal_sample (i ∷ t ∷ p) =
    ok (record { ts = record { sender_id = i; lamp_ts = t }; payload = p })
unmarshal_sample _ = err unmarshalling

abbrev pub sample : MsgCodec
sample = record {
  marshal = λ m. ok (m.ts.sender_id ∷ m.ts.lamp_ts ∷ m.payload);
  unmarshal = unmarshal_sample;
}

pub sample-RoundTrips : RoundTrips sample
sample-RoundTrips = record { trips = λ m. (m.ts.sender_id ∷ m.ts.lamp_ts ∷ m.payload, refl, refl) }

abbrev chess : Text
chess = text "ch"

abbrev stored : Ts
stored = record { sender_id = 7; lamp_ts = 100 }

abbrev ordered : Syncer
ordered = record { id = 7; ts_map = (chess, stored) ∷ [] }

abbrev received : GroupMsg
received = record { ts = record { sender_id = 9; lamp_ts = 120 }; payload = text "hi" }

clock_of-ordered : clock_of chess ordered ≡ some stored
unfolding lookup
clock_of-ordered = refl

message_behind : (message sample chess (text "hi") 50 ordered).0 ≡ ok (7 ∷ 101 ∷ text "hi")
unfolding message lookup
message_behind = refl

message_advances_example :
    (next : Ts) × ((message sample chess (text "hi") 50 ordered).0
      ≡ sample.marshal (record { ts = next; payload = text "hi" }))
    × (clock_of chess (message sample chess (text "hi") 50 ordered).1 ≡ some next)
    × ((t : Text)
        → chess ≢ t
        → clock_of t (message sample chess (text "hi") 50 ordered).1 ≡ clock_of t ordered)
    × (50 < stored.lamp_ts → next.lamp_ts ≡ stored.lamp_ts + 1)
    × (stored.lamp_ts ≤ 50 → next.lamp_ts ≡ 50)
    × (next.sender_id ≡ stored.sender_id)
message_advances_example =
    message_advances sample chess (text "hi") 50 ordered stored clock_of-ordered (omega arith)

parse_witnesses_example : (parse sample chess (9 ∷ 120 ∷ text "hi") ordered).0 ≡ ok (text "hi")
parse_witnesses_example =
    (parse_witnesses sample chess (9 ∷ 120 ∷ text "hi") ordered stored received clock_of-ordered
      refl).0

parse_takes_sender_example :
    (next : Ts) × ((message sample chess
        (text "yo")
        50
        (parse sample chess (9 ∷ 120 ∷ text "hi") ordered).1).0
      ≡ sample.marshal (record { ts = next; payload = text "yo" }))
    × (next.sender_id ≡ 9)
    × (50 < 120 → next.lamp_ts ≡ 121)
    × (120 ≤ 50 → next.lamp_ts ≡ 50)
parse_takes_sender_example =
    parse_takes_sender sample chess (9 ∷ 120 ∷ text "hi") (text "yo") 50 ordered stored received
      clock_of-ordered refl (omega arith) (omega arith)

same_second_same_timestamp_example :
    (message sample chess (text "a") 100 ordered).0
    ≡ sample.marshal (record { ts = stored; payload = text "a" })
same_second_same_timestamp_example =
    (same_second_same_timestamp sample chess (text "a") (text "b") 100 ordered stored
      clock_of-ordered refl).0

abbrev plain : Syncer
plain = record { id = 7; ts_map = [] }

unordered : clock_of chess plain ≡ none
unfolding lookup
unordered = refl

unordered_passes_example :
    (parse sample chess (text "x") plain ≡ (ok (text "x"), plain))
    × (message sample chess (text "x") 5 plain ≡ (ok (text "x"), plain))
unordered_passes_example = unordered_passes sample chess (text "x") 5 plain unordered

abbrev ahead : Syncer
ahead = record { id = 9; ts_map = (chess, record { sender_id = 9; lamp_ts = 120 }) ∷ [] }

reply_follows_example :
    let sent = advanced 150 stored in
    (body : Text) × (seen : Ts) × ((message sample chess (text "hi") 150 ordered).0 ≡ ok body)
    × ((parse sample chess body ahead).0 ≡ ok (text "hi"))
    × (clock_of chess (parse sample chess body ahead).1 ≡ some seen)
    × (sent.lamp_ts ≤ (advanced 140 seen).lamp_ts)
    × (120 ≤ (advanced 140 seen).lamp_ts)
    × (140 ≢ seen.lamp_ts
        → (sent.lamp_ts < (advanced 140 seen).lamp_ts) × (120 < (advanced 140 seen).lamp_ts))
unfolding lookup advanced
reply_follows_example =
    reply_follows sample sample-RoundTrips chess (text "hi") 150 ordered ahead 140 stored
      (record { sender_id = 9; lamp_ts = 120 }) refl refl (omega arith) (omega arith)
