-- ===== src/Pubsub/Join/Reports.antt =====
-- The checksums that connect_all collects from the responses of the members.
use zero_comm.Prelude.{Text, Bool, true, false, List, [], ◌∷◌, ◌≡◌, ok, get_or, if◌then◌else◌}
use zero_comm.Prelude.Dict.{Dict, lookup, insert, IsMap, insert-IsMap}
use zero_comm.Prelude.Method.{Method, ◌>>=◌, >>=-next}
use zero_comm.Domain.{Member, ResSubscribe}
use zero_comm.Pubsub.Node.{Outside, Node}
use zero_comm.Pubsub.Requests.{connect_all, connect_member, no_response}

-- What the active members reported, the empty checksum for one without a response
unfoldable pub reported : Dict ResSubscribe → List Member → Dict Text → Dict Text
reported res [] hashes = hashes
reported res (m ∷ ms) hashes = reported res ms (
    if m.active
    then insert m.label (get_or (lookup m.label res) no_response).checksum hashes
    else hashes)

pub IsMap-reported :
    (res : Dict ResSubscribe) (ms : List Member) (hashes : Dict Text)
    → IsMap hashes
    → IsMap (reported res ms hashes)
unfolding reported
IsMap-reported res [] hashes u = u
IsMap-reported res (m ∷ ms) hashes u = IsMap-reported res ms _ (by_active m.active)
  where
    by_active :
        (b : Bool)
        → IsMap (
            if b
            then insert m.label (get_or (lookup m.label res) no_response).checksum hashes
            else hashes)
    by_active true = insert-IsMap m.label _ hashes u
    by_active false = u

module _ (o : Outside) (topic : Text) (publisher : Bool) (res : Dict ResSubscribe) where
  pub connect_all-reported :
      (ms : List Member) (hashes : Dict Text) (n : Node) {all : Dict Text}
      → (connect_all o topic publisher res ms hashes n).0 ≡ ok all
      → all ≡ reported res ms hashes
  unfolding connect_all reported
  connect_all-reported [] hashes n e = cc
  connect_all-reported (m ∷ ms) hashes n {all} e =
      by_active (λ h k e. connect_all-reported ms h k e) m.active e
    where
      next : Dict Text
      next = insert m.label (get_or (lookup m.label res) no_response).checksum hashes

      answered : Method Node (Dict Text)
      answered =
          connect_member o topic publisher m (get_or (lookup m.label res) no_response) >>= λ _.
          connect_all o topic publisher res ms next

      by_active :
          ((h : Dict Text) (k : Node)
            → (connect_all o topic publisher res ms h k).0 ≡ ok all
            → all ≡ reported res ms h)
          → (b : Bool)
          → (if b then answered n else connect_all o topic publisher res ms hashes n).0 ≡ ok all
          → all ≡ reported res ms (if b then next else hashes)
      by_active rest false h = rest hashes n h
      by_active rest true h =
          let (_, _, last) =
            >>=-next (connect_member o topic publisher m (get_or (lookup m.label res) no_response))
              (λ _. connect_all o topic publisher res ms next) n h in
          rest next _ last
