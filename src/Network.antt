-- ===== src/Network.antt =====
-- src/network: the wire protocol, one connection to a peer, and the sockets under it.
pub mod Protocol
pub mod Connection
pub mod Socket
pub mod Client
pub mod Server
