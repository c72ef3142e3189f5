-- ===== src/Transport/Listeners/Replies.antt =====
-- What the listeners of pubsub/transport/zmq.go answer to the frames that the publishers send.
use zero_comm.Prelude.{
  Text, [], ◌∷◌, none, some, ◌≡◌, ◌≢◌, refl, arith, Result, ok, err, panic, All, ◌==◌, eq_iff,
  false, Error,
}
use zero_comm.Prelude.Dict.{Dict, lookup, insert, lookup-insert}
use zero_comm.Stores.Group.{Groups}
use zero_comm.Transport.Messages.{
  PublishMsg, Replies, internal_topics, topic_connect, topic_subscribe, topic_authenticate,
  topic_term,
}
use zero_comm.Transport.Auth.{Zmq, Side}
use zero_comm.Transport.Listeners.{
  Reaction, replied, stuck, handled, crashed, add_rep_chan, reply_err, frames, space, Readers,
  listen_state, listen_data,
}
use zero_comm.Transport.Publisher.{frame, publish, sent}

abbrev pub OneWord : Text → Type 0
OneWord = All (λ c. c ≢ space)

pub frames-frame : (t c : Text) → OneWord t → frames (frame t c) ≡ some (t, c)
unfolding frames
frames-frame [] c h = refl
frames-frame (b ∷ t) c h = ground (arith, frames-frame t c h.1, h.0)

pub other_text : (s t : Text) → s ≢ t → (s == t) ≡ false
other_text s t n = ground (arith, eq_iff s t)

-- None of the four topics of the internal messages.
abbrev pub IsExternal : Text → Type 0
IsExternal t = All (λ i. t ≢ i) internal_topics

-- What a listener does with the outcome of a call, once the reply channel is known.
abbrev pub answered : Text → Result (Unit {0}) → Reaction
answered c (ok u) = replied c none
answered c (err e) = replied c (some e)
answered c panic = crashed

-- A state id and a data id that are both set and differ.
pub record IsProper (r : Replies) : Type 0 where
  pub has_state : r.state.id ≢ []
  pub has_data : r.data_side.id ≢ []
  pub apart : r.state.id ≢ r.data_side.id

-- A send to the empty id stays one on a nil channel, whatever is registered.
empty_id_unregistered :
    (si di sc dc : Text) (chans : Dict Text)
    → lookup [] (add_rep_chan si di sc dc chans) ≡ lookup [] chans
unfolding add_rep_chan
empty_id_unregistered [] [] sc dc chans = refl
empty_id_unregistered [] (b ∷ di) sc dc chans = lookup-insert (b ∷ di) [] dc chans
empty_id_unregistered (a ∷ si) [] sc dc chans = lookup-insert (a ∷ si) [] sc chans
empty_id_unregistered (a ∷ si) (b ∷ di) sc dc chans = ground (
  arith,
  lookup-insert (b ∷ di) [] dc (insert (a ∷ si) sc chans),
  lookup-insert (a ∷ si) [] sc chans,
)

module _ {S : Type 0} (z : Zmq S) (gs : Groups) (js : Readers) where
  -- What an agent publishes on a topic without a space, other than the internal topics, both
  -- listeners of a receiver give to their handler with this topic and content, and do nothing else.
  pub published_handled :
      (chans : Dict Text) (pm : PublishMsg) (send : Text → Result (Unit {0})) (a : Side S)
      → OneWord pm.topic
      → IsExternal pm.topic
      → (send (frame pm.topic pm.content) ≡ ok tt)
      → (msg : Text) × (publish pm send ≡ sent msg none)
        × (listen_state z gs chans js (ok msg) a ≡ (handled pm.topic pm.content, a))
        × (listen_data z gs chans js (ok msg) a ≡ (handled pm.topic pm.content, a))
  unfolding publish listen_state listen_data
  published_handled chans pm send a h i e = (
    frame pm.topic pm.content,
    ground (arith, eq_iff pm.topic topic_term, i.1.1.1.0, e),
    rw (frames-frame pm.topic pm.content h) (rw (tests.0, tests.1, tests.2, tests.3) refl),
    rw (frames-frame pm.topic pm.content h) (rw (tests.0, tests.1, tests.2, tests.3) refl),
  )
    where
      tests :
          ((pm.topic == topic_connect) ≡ false)
          × ((pm.topic == topic_subscribe) ≡ false)
          × ((pm.topic == topic_authenticate) ≡ false)
          × ((pm.topic == topic_term) ≡ false)
      tests = (
        other_text _ _ i.0,
        other_text _ _ i.1.0,
        other_text _ _ i.1.1.0,
        other_text _ _ i.1.1.1.0,
      )

  -- A connect message that cannot be decoded, and leaves no reply id, is answered on a nil channel,
  -- where the listener blocks; no registration of a reply channel changes that.
  pub undecodable_blocks :
      (si di sc dc : Text) (chans : Dict Text) (content : Text) (e : Error) (a : Side S)
      → lookup [] chans ≡ none
      → js.connects.read content ≡ err e
      → js.connects.left content ≡ []
      → listen_state z gs (add_rep_chan si di sc dc chans) js (ok (frame topic_connect content)) a
        ≡ (stuck, a)
  unfolding listen_state frames reply_err
  undecodable_blocks si di sc dc chans content e a h hr hl =
      rw hr (rw (hl, reply_err, empty_id_unregistered si di sc dc chans, h) refl)
