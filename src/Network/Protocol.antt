-- ===== src/Network/Protocol.antt =====
-- src/network/protocol.hpp and protocol.cpp: message types, the 12-byte frame header, frames and
-- the incremental reader. A byte is a number below 256; a std::vector<uint8_t> is a list of them.
pub mod Types
pub mod Header
pub mod Reader
