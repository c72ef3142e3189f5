-- ===== src/Transport/Publisher/Harmless.antt =====
-- The frames that the publishers of pubsub/transport/zmq.go send, as the listeners split them.
use zero_comm.Prelude.{
  Text, Option, none, some, Bool-cases, inl, inr, ◌≡◌, ◌≢◌, refl, arith, Result, ok, err, panic,
  Error, ◌⊎◌, ◌==◌, eq_iff, subst, sym, ◌∙◌, sending, false, ne_of_test,
}
use zero_comm.Prelude.Dict.{Dict}
use zero_comm.Transport.Messages.{
  PublishMsg, topic_connect, topic_subscribe, topic_authenticate, topic_term,
}
use zero_comm.Transport.Listeners.{frames}
use zero_comm.Transport.Listeners.Replies.{OneWord, frames-frame}
use zero_comm.Transport.Publisher.{
  frame, Writers, Request, connecting, subscribing, authenticating, closing, connector,
  internal_frame, publish, sent, shut,
}

-- The message has no second part, or another topic than that of the end.
unfoldable pub IsHarmless : Text → Type 0
IsHarmless msg =
    (frames msg ≡ none)
    ⊎ ((topic : Text) × (content : Text) × (frames msg ≡ some (topic, content))
        × (topic ≢ topic_term))

some_eq : {s t : Text} → some s ≡ some t → s ≡ t
some_eq e = cc

framed-IsHarmless :
    (topic : Text) (r : Result Text) (msg : Text)
    → OneWord topic
    → topic ≢ topic_term
    → internal_frame topic r ≡ some msg
    → IsHarmless msg
unfolding IsHarmless
framed-IsHarmless topic (ok content) msg h n e = inr (
  topic,
  content,
  subst (λ m. frames m ≡ some (topic, content)) (some_eq e) (frames-frame topic content h),
  n,
)
framed-IsHarmless topic (err x) msg h n e = cc
framed-IsHarmless topic panic msg h n e = cc

connector-IsHarmless :
    (w : Writers) (req : Request) (chans : Dict Text) (msg : Text)
    → (connector w req chans).0 ≡ some msg
    → IsHarmless msg
unfolding connector IsHarmless frames
connector-IsHarmless w (connecting cm) chans msg e =
    framed-IsHarmless topic_connect (w.connects cm) msg (omega arith)
      (ne_of_test topic_connect topic_term refl) e
connector-IsHarmless w (subscribing sm) chans msg e =
    framed-IsHarmless topic_subscribe (w.subscribes sm) msg (omega arith)
      (ne_of_test topic_subscribe topic_term refl) e
connector-IsHarmless w (authenticating am) chans msg e =
    framed-IsHarmless topic_authenticate (w.auths am) msg (omega arith)
      (ne_of_test topic_authenticate topic_term refl) e
connector-IsHarmless w closing chans msg e = inl (subst (λ m. frames m ≡ none) (some_eq e) refl)

sent_eq : {s t : Text} {a b : Option Error} → sent s a ≡ sent t b → s ≡ t
sent_eq e = cc

publish_frames :
    (pm : PublishMsg) (send : Text → Result (Unit {0}))
    → (publish pm send ≡ shut)
      ⊎ ((pm.topic ≢ topic_term)
          × (e : Option Error) × (publish pm send ≡ sent (frame pm.topic pm.content) e))
unfolding publish
publish_frames pm send = elim (Bool-cases (pm.topic == topic_term)) [
  | inl y ↦ inl (rw (y, publish) refl)
  | inr n ↦
      let (e, made) = by_outcome (send (frame pm.topic pm.content)) refl n in
      inr ((λ same. cc (n, (eq_iff pm.topic topic_term).1 same)), e, made)
]
  where
    by_outcome :
        (r : Result (Unit {0}))
        → send (frame pm.topic pm.content) ≡ r
        → (pm.topic == topic_term) ≡ false
        → (e : Option Error) × (publish pm send ≡ sent (frame pm.topic pm.content) e)
    by_outcome (ok u) e n = (none, rw (n, publish) (rw e refl))
    by_outcome (err x) e n = (some sending, rw (n, publish) (rw e refl))
    by_outcome panic e n = (some sending, rw (n, publish) (rw e refl))

publish-IsHarmless :
    (pm : PublishMsg) (send : Text → Result (Unit {0})) (msg : Text) (e : Option Error)
    → OneWord pm.topic
    → publish pm send ≡ sent msg e
    → IsHarmless msg
unfolding IsHarmless
publish-IsHarmless pm send msg e h made = elim (publish_frames pm send) [
  | inl y ↦ cc
  | inr (n, o, made') ↦
      let same : frame pm.topic pm.content ≡ msg = sent_eq (sym made' ∙ made) in
      inr (
        pm.topic,
        pm.content,
        subst (λ m. frames m ≡ some (pm.topic, pm.content)) same
            (frames-frame pm.topic pm.content h),
        n,
      )
]

-- A message that a round of one of the two publishers sends: of the internal one for some request, or
-- of the other for a topic without a space.
abbrev pub IsSent : Text → Type 0
IsSent msg =
    ((w : Writers) × (req : Request) × (chans : Dict Text) × ((connector w req chans).0 ≡ some msg))
    ⊎ ((pm : PublishMsg) × (send : Text → Result (Unit {0})) × (e : Option Error) × OneWord pm.topic
        × (publish pm send ≡ sent msg e))

-- What the publishers send is harmless.
pub IsSent-IsHarmless : (msg : Text) → IsSent msg → IsHarmless msg
IsSent-IsHarmless msg (inl (w, req, chans, e)) = connector-IsHarmless w req chans msg e
IsSent-IsHarmless msg (inr (pm, send, e, h, made)) = publish-IsHarmless pm send msg e h made
