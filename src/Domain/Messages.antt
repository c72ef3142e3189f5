-- ===== src/Domain/Messages.antt =====
-- domain/messages: the messages that the agents exchange, field by field.
use zero_comm.Prelude.{Text, text, Bool, List}
use zero_comm.Prelude.Dict.{Dict}
use zero_comm.Domain.Models.{Member, GroupParams, Feature}

abbrev pub oob_invitation_v1 : Text
oob_invitation_v1 = text "https://didcomm.org/out-of-band/1.0/invitation"

abbrev pub did_exchange_req_v1 : Text
did_exchange_req_v1 = text "https://didcomm.org/didexchange/1.0/request"

abbrev pub did_exchange_res_v1 : Text
did_exchange_res_v1 = text "https://didcomm.org/didexchange/1.0/response"

abbrev pub discover_feat_query : Text
discover_feat_query = text "https://didcomm.org/discover-features/1.0/query"

abbrev pub discover_feat_disclose : Text
discover_feat_disclose = text "https://didcomm.org/discover-features/1.0/disclose"

abbrev pub subscribe_v1 : Text
subscribe_v1 = text "https://didcomm.org/pub-sub/1.0/subscribe"

abbrev pub join_request_v1 : Text
join_request_v1 = text "https://didcomm.org/pub-sub/1.0/join-request"

abbrev pub join_response_v1 : Text
join_response_v1 = text "https://didcomm.org/pub-sub/1.0/join-response"

abbrev pub member_status_v1 : Text
member_status_v1 = text "https://didcomm.org/pub-sub/1.0/status"

abbrev pub hello_protocol_v1 : Text
hello_protocol_v1 = text "https://didcomm.org/pub-sub/1.0/hello"

pub record AuthCryptMsg : Type 0 where
  pub protected : Text
  pub iv : Text
  pub ciphertext : Text
  pub tag : Text

pub record Header : Type 0 where
  pub kid : Text
  pub iv : Text
  pub sender : Text

pub record Recipient : Type 0 where
  pub encrypted_key : Text
  pub header : Header

pub record Payload : Type 0 where
  pub enc : Text
  pub typ : Text
  pub alg : Text
  pub recipients : List Recipient

-- messages.Service, the service of a DID document
pub record DocService : Type 0 where
  pub id : Text
  pub typ : Text
  pub recipient_keys : List Text
  pub routing_keys : List Text
  pub service_endpoint : Text
  pub accept : List Text

pub record DidDocument : Type 0 where
  pub context : List Text
  pub id : Text
  pub service : List DocService

pub record Invitation : Type 0 where
  pub id : Text
  pub typ : Text
  pub from : Text
  pub label : Text
  pub goal_code : Text
  pub goal : Text
  pub accept : List Text
  pub services : List DocService

pub record ConnReq : Type 0 where
  pub id : Text
  pub typ : Text
  pub th_id : Text
  pub p_th_id : Text
  pub label : Text
  pub goal_code : Text
  pub goal : Text
  pub did : Text
  pub attach_id : Text
  pub mime_type : Text
  pub attach_base64 : Text

pub record ConnRes : Type 0 where
  pub id : Text
  pub typ : Text
  pub th_id : Text
  pub did : Text
  pub attach_id : Text
  pub mime_type : Text
  pub attach_base64 : Text

pub record QueryFeature : Type 0 where
  pub typ : Text
  pub id : Text
  pub query : Text
  pub comment : Text

pub record DiscloseFeature : Type 0 where
  pub typ : Text
  pub th_id : Text
  pub features : List Feature

pub record Transport : Type 0 where
  pub servr_pub_key : Text
  pub client_pub_key : Text

pub record Subscribe : Type 0 where
  pub id : Text
  pub typ : Text
  pub subscribe : Bool
  pub pub_key : Text
  pub topic : Text
  pub member : Member
  pub transport : Transport

pub record ResSubscribe : Type 0 where
  pub publisher : Bool
  pub transport : Transport
  pub checksum : Text

pub record Status : Type 0 where
  pub id : Text
  pub typ : Text
  pub topic : Text
  pub auth_msgs : Dict Text

pub record ReqGroupJoin : Type 0 where
  pub id : Text
  pub typ : Text
  pub label : Text
  pub topic : Text
  pub requester_inv : Text

pub record ResGroupJoin : Type 0 where
  pub id : Text
  pub typ : Text
  pub params : GroupParams
  pub members : List Member
