-- ===== src/Transport.antt =====
-- station/frame/core/plugin/native: transport/transport.go and client/client.go. Transport/Framing is the
-- form of a message on a stream, Transport/Calls dialling and calling. libp2p, encoding/json and the codecs
-- are arguments.
pub mod Framing
pub mod Calls
mod Tests
