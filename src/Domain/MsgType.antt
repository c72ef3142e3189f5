-- ===== src/Domain/MsgType.antt =====
-- domain/models/message.go. A MsgType is an int that a peer may choose, so it is a number here.
use zero_comm.Prelude.{ℕ, Text, text, eqb, if◌then◌else◌}

abbrev pub conn_req : ℕ
conn_req = 0

abbrev pub conn_res : ℕ
conn_res = 1

abbrev pub data_msg : ℕ
data_msg = 2

abbrev pub subscribe : ℕ
subscribe = 3

abbrev pub query : ℕ
query = 4

abbrev pub group_join : ℕ
group_join = 5

abbrev pub group_status : ℕ
group_status = 6

abbrev pub group_msg : ℕ
group_msg = 7

abbrev pub status_ack : ℕ
status_ack = 8

abbrev pub terminate : ℕ
terminate = 9

-- MsgType.String
pub name : ℕ → Text
name m =
    if eqb m conn_req
    then text "connection-request"
    else if eqb m conn_res
    then text "connection-response"
    else if eqb m data_msg
    then text "data-message"
    else if eqb m subscribe
    then text "subscribe-request"
    else if eqb m query
    then text "query-message"
    else if eqb m group_join
    then text "join-request"
    else if eqb m group_status
    then text "status-message"
    else if eqb m group_msg
    then text "group-message"
    else if eqb m status_ack
    then text "hello-ack"
    else if eqb m terminate
    then text "internal-terminate-message"
    else text "undefined"

pub record Message : Type 0 where
  pub typ : ℕ
  pub payload : Text
