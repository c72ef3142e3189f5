-- ===== src/Cli/Commands.antt =====
-- The commands of cli/runner.go that ask for their inputs and call an agent.
use zero_comm.Prelude.{
  Text, text, Bool, true, false, List, [], ◌∷◌, ◌++◌, Option, none, some, ◌==◌, if◌then◌else◌, map,
  length, Result, ok, err, panic,
}
use zero_comm.Prelude.Spaces.{decimal}
use zero_comm.Domain.{Member, GroupParams, Feature, single_queue_mode, multiple_queue_mode}
use zero_comm.Domain.MsgType.{data_msg}
use zero_comm.Domain.Services.{Agent, Discoverer, GroupAgent}
use zero_comm.Cli.Console.{
  Run, done, crashed, attempt, ◌>>=◌, ◌>>◌, output, output_list, error, input, valid_bool,
}

-- The agents of a runner, and what it uses of the package net/url: the values of `oob` in the query of
-- a URL, where the URL parses
pub record Services (S : Type 0) : Type 0 where
  pub prober : Agent S
  pub disc : Discoverer S
  pub pubsub : GroupAgent S
  pub oob_values : Text → Result (List Text)

-- %t and %v of fmt, for the values that are printed
abbrev pub show_bool : Bool → Text
show_bool b = if b then text "true" else text "false"

abbrev pub spaced : List Text → Text
spaced [] = []
spaced (t ∷ []) = t
spaced (t ∷ u ∷ ts) = t ++ text " " ++ spaced (u ∷ ts)

abbrev pub show_member : Member → Text
show_member m =
    text "{"
    ++ spaced (show_bool m.active ∷ show_bool m.publisher ∷ m.label ∷ m.inv ∷ m.pub_endpoint ∷ [])
    ++ text "}"

abbrev pub show_list : List Text → Text
show_list ts = text "[" ++ spaced ts ++ text "]"

abbrev pub show_feature : Feature → Text
show_feature f = text "Protocol: \"" ++ f.id ++ text "\", Roles: " ++ show_list f.roles

-- The mode of createGroup
abbrev pub group_mode : Text → Text
group_mode mode =
    if mode == text "s"
    then single_queue_mode
    else if mode == text "S"
    then single_queue_mode
    else multiple_queue_mode

module _ {S : Type 0} where
  -- A branch on an error of validBool
  abbrev pub with_bool : Option Bool → (Bool → Run S (Unit {0})) → Run S (Unit {0})
  with_bool none f = error (text "invalid input")
  with_bool (some b) f = f b

  abbrev pub succeed : Run S (Unit {0})
  succeed r = (done tt, r)

  abbrev pub accept_value : Services S → List Text → Run S (Unit {0})
  accept_value s [] = error (text "invitation url must contain 'oob' parameter, please try again")
  accept_value s (inv ∷ invs) =
      attempt (s.prober.accept inv) (λ sender. succeed)
        (error (text "invitation may be invalid, please try again"))

  -- the url.Parse of connectWithInv
  abbrev pub with_url : Services S → Result (List Text) → Run S (Unit {0})
  with_url s (ok invs) r = accept_value s invs r
  with_url s (err e) r = error (text "invalid url format, please try again") r
  with_url s panic r = (crashed, r)

  abbrev pub describe : GroupParams → List Member → Run S (Unit {0})
  describe params [] = output (text "Topic does not exist") true
  describe params (m ∷ ms) = do
    output (text "Mode: " ++ params.mode) true
    output (text "Causally ordered: " ++ show_bool params.order_enabled) false
    output (text "Virtual synchrony at join: " ++ show_bool params.join_consistent) false
    output (text "Number of members: " ++ decimal (length (m ∷ ms))) false
    output (text "Member list: " ++ show_list (map show_member (m ∷ ms))) false

module _ {S : Type 0} (s : Services S) where
  unfoldable pub generate_invitation : Run S (Unit {0})
  generate_invitation =
      attempt s.prober.invite (λ inv. output (text "Invitation URL: " ++ inv) true)
        (error (text "generating invitation failed"))

  unfoldable pub connect_with_inv : Run S (Unit {0})
  connect_with_inv r =
      (do url ← input (text "Provide invitation in URL form"); with_url s (s.oob_values url)) r

  unfoldable pub send_msg : Run S (Unit {0})
  send_msg r =
      (do
        peer ← input (text "Recipient")
        msg ← input (text "Message")
        attempt (s.prober.send_message data_msg peer msg) (λ u. succeed)
            (error (text "sending message failed")))
        r

  unfoldable pub discover : Run S (Unit {0})
  discover r =
      (do
        endpoint ← input (text "Endpoint")
        query ← input (text "Query")
        comment ← input (text "Comment")
        attempt (s.disc.query endpoint query comment)
            (λ fs. output_list (text "Supported features") (map show_feature fs))
            (error (text "discovering features failed, please try again")))
        r

  -- What createGroup does with its five answers
  unfoldable pub create_with : Text → Text → Text → Text → Text → Run S (Unit {0})
  create_with topic str_pub mode str_join_consist str_ordrd =
      with_bool (valid_bool str_pub) λ publisher. with_bool (valid_bool str_ordrd) λ ordrd.
        with_bool (valid_bool str_join_consist) λ join_consist.
          attempt
            (s.pubsub.create topic publisher (record {
              order_enabled = ordrd;
              join_consistent = join_consist;
              mode = group_mode mode;
            }))
            (λ u. output (text "Group created") true) (error (text "create group failed"))

  unfoldable pub create_group : Run S (Unit {0})
  create_group r =
      (do
        topic ← input (text "Topic")
        str_pub ← input (text "Publisher (Y/N)")
        mode ← input (text "Group queue mode [single,multiple] (S/M)")
        str_join_consist ← input (text "Strict consistency for join operation (Y/N)")
        str_ordrd ← input (text "Causal consistency for group messages (Y/N)")
        create_with topic str_pub mode str_join_consist str_ordrd)
        r

  unfoldable pub join_group : Run S (Unit {0})
  join_group r =
      (do
        topic ← input (text "Topic")
        acceptor ← input (text "Acceptor")
        str_pub ← input (text "Publisher (Y/N)")
        with_bool (valid_bool str_pub) λ publisher.
            attempt (s.pubsub.join topic acceptor publisher)
              (λ u. output (text "Joined group " ++ topic) true) (error (text "group join failed")))
        r

  unfoldable pub group_msg : Run S (Unit {0})
  group_msg r =
      (do
        topic ← input (text "Topic")
        msg ← input (text "Message")
        attempt (s.pubsub.send topic msg) (λ n. succeed)
            (error (text "sending group message failed")))
        r

  unfoldable pub leave : Run S (Unit {0})
  leave r =
      (do
        topic ← input (text "Topic")
        attempt (s.pubsub.leave topic) (λ u. succeed) (error (text "leaving group failed")))
        r

  -- Info returns no error.
  unfoldable pub group_info : Run S (Unit {0})
  group_info r =
      (do
        topic ← input (text "Topic")
        attempt (s.pubsub.info topic) (λ i. describe i.0 i.1) succeed)
        r
