-- ===== src/Hub.antt =====
-- core/memory_chain_hub.go, core/redis_chain_hub.go and core/redis_stream_chain_hub.go: the hubs that
-- pass chain statuses from the endpoints' loops to the subscribers.
pub mod Channels
pub mod Memory
pub mod Stream
pub mod Delivery
pub mod Replay
pub mod PubSub
pub mod Failures
pub mod Loops
pub mod Listening
pub mod Streaming
