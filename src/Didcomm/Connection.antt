-- ===== src/Didcomm/Connection.antt =====
-- didcomm/connection/handler.go. The uuids are arguments, in the order in which they are drawn; JSON
-- is a parameter.
use zero_comm.Prelude.{Text, text, [], Result, ok, ◌>>=◌, Codec}
use zero_comm.Prelude.Base64.{encode, decode, std}
use zero_comm.Domain.{AuthCryptMsg, ConnReq, ConnRes, did_exchange_req_v1, did_exchange_res_v1}

pub record Exchange : Type 0 where
  pub docs : Codec AuthCryptMsg
  pub reqs : Codec ConnReq
  pub ress : Codec ConnRes

unfoldable pub create_conn_req :
    Exchange → Text → Text → Text → Text → Text → AuthCryptMsg → Result ConnReq
create_conn_req x id attach_id label pthid did enc_did_doc = do
  enc_doc_bytes ← x.docs.marshal enc_did_doc
  ok (record {
    id = id;
    typ = did_exchange_req_v1;
    th_id = id;
    p_th_id = pthid;
    label = label;
    goal_code = [];
    goal = text "connection establishment";
    did = did;
    attach_id = attach_id;
    mime_type = text "application/json";
    attach_base64 = encode std enc_doc_bytes;
  })

-- The label, the exchange id, the peer's did and its encrypted document.
pub record ParsedReq : Type 0 where
  pub label : Text
  pub exch_th_id : Text
  pub peer_did : Text
  pub enc_doc_bytes : Text

unfoldable pub parse_conn_req : Exchange → Text → Result ParsedReq
parse_conn_req x bytes = do
  req ← x.reqs.unmarshal bytes
  doc ← decode std req.attach_base64
  ok (record { label = req.label; exch_th_id = req.th_id; peer_did = req.did; enc_doc_bytes = doc })

unfoldable pub create_conn_res :
    Exchange → Text → Text → Text → Text → AuthCryptMsg → Result ConnRes
create_conn_res x id attach_id pth_id did enc_did_doc = do
  enc_doc_bytes ← x.docs.marshal enc_did_doc
  ok (record {
    id = id;
    typ = did_exchange_res_v1;
    th_id = pth_id;
    did = did;
    attach_id = attach_id;
    mime_type = text "application/json";
    attach_base64 = encode std enc_doc_bytes;
  })

unfoldable pub parse_conn_res : Exchange → Text → Result (Text × Text)
parse_conn_res x bytes = do
  res ← x.ress.unmarshal bytes
  doc ← decode std res.attach_base64
  ok (res.th_id, doc)
