-- ===== src/Reqrep.antt =====
-- The package reqrep/zmq: requests and responses over a pair of REQ and REP sockets.
pub mod Server
pub mod Client
pub mod Exchange
pub mod Mock
pub mod Http
pub mod Examples
