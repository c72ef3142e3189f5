-- ===== src/Reqrep/Mock/Examples.antt =====
-- Runs of the mock server's handlers, and of a callback.
use zero_comm.Prelude.{text, true, [], ◌∷◌, ◌++◌, ◌≡◌, refl, arith}
use zero_comm.Prelude.Integer.{pos}
use zero_comm.Prelude.Spaces.{decimal, digits}
use zero_comm.Reqrep.Mock.{ReqRegAck}
use zero_comm.Reqrep.Mock.Callback.{came, fired, collect, messages, callback_res, callback_outcome}

abbrev wanted : ReqRegAck
wanted = record {
  peer = text "bob";
  msg = text "hi";
  count = pos 2;
  callback_endpoint = text "http://tester";
  timeout_ms = pos 100;
}

-- The timer fires after the first of two messages: there are two posts.
late :
    (collect wanted 0 (came (text "hi") ∷ fired ∷ came (text "no") ∷ came (text "hi") ∷ [])).posts
    ≡ (text "http://tester", text "1") ∷ (text "http://tester", text "2") ∷ []
unfolding collect decimal digits
late = refl

callback_outcome_example :
    collect wanted 0 (messages (text "hi" ∷ []) ++ fired ∷ messages (text "hi" ∷ []))
    ≡ (record { posts = callback_res wanted 1 ∷ callback_res wanted 2 ∷ []; returned = true })
callback_outcome_example =
    callback_outcome wanted 2 refl (text "hi" ∷ []) (text "hi" ∷ []) (omega arith)
