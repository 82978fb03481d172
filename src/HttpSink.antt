-- ===== src/HttpSink.antt =====
-- gateway/include/edgeflow/gateway/http_sink.hpp and gateway/src/http_sink.cpp: the sink that posts
-- batches over HTTP. The children model the URL, one round trip, the retries, the keys, and the
-- sink's threads with its counters.
pub mod Url
pub mod Send
pub mod Retry
pub mod Keys
pub mod Sink
mod Tests
