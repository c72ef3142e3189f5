-- ===== src/Domain/Models.antt =====
-- domain/definitions.go and domain/models/internal.go
use zero_comm.Prelude.{ℕ, Text, text, Bool, true, false, Option, List, ◌==◌, if◌then◌else◌}
use zero_comm.Prelude.Dict.{Dict}

abbrev pub servc_did_exchange : Text
servc_did_exchange = text "did-exchange-service"

abbrev pub servc_message : Text
servc_message = text "message-service"

abbrev pub servc_group_join : Text
servc_group_join = text "group-join-service"

abbrev pub topic_prefix : Text
topic_prefix = text "urn:didcomm-queue:"

abbrev pub hello_prefix : Text
hello_prefix = text "hello_"

abbrev pub msg_terminate : Text
msg_terminate = text "terminate-zcomm"

abbrev pub no_consistency : Text
no_consistency = text "none"

abbrev pub join_consistent : Text
join_consistent = text "join"

abbrev pub strict_consistent : Text
strict_consistent = text "all"

-- ConsistencyLevel.Valid
pub valid_consistency : Text → Bool
valid_consistency c =
    if c == no_consistency
    then true
    else if c == join_consistent
    then true
    else if c == strict_consistent
    then true
    else false

pub data Role : Type 0 where
  publisher_role subscriber_role null_role : Role

abbrev pub single_queue_mode : Text
single_queue_mode = text "single-queue"

abbrev pub multiple_queue_mode : Text
multiple_queue_mode = text "multiple-queue"

-- GroupMode.Valid
unfoldable pub valid_mode : Text → Bool
valid_mode g =
    if g == single_queue_mode then true else if g == multiple_queue_mode then true else false

abbrev pub retry_count : ℕ
retry_count = 10

pub record Service : Type 0 where
  pub id : Text
  pub typ : Text
  pub endpoint : Text
  pub pub_key : Text

pub record Peer : Type 0 where
  pub active : Bool
  pub did : Text
  pub exchange_th_id : Text
  pub services : List Service

pub record Feature : Type 0 where
  pub id : Text
  pub roles : List Text

pub record Member : Type 0 where
  pub active : Bool
  pub publisher : Bool
  pub label : Text
  pub inv : Text
  pub pub_endpoint : Text

pub record GroupParams : Type 0 where
  pub order_enabled : Bool
  pub join_consistent : Bool
  pub mode : Text

-- `none` is the nil map of members, or the nil pointer to the parameters.
pub record Group : Type 0 where
  pub topic : Text
  pub checksum : Text
  pub members : Option (Dict Member)
  pub group_params : Option GroupParams
  pub last_updated : ℕ
