-- ===== src/Streams.antt =====
-- The streams between the sidecar and the app: app/src/lib/sidecar/protocol/ndjson.ts and
-- app/sidecar/ipc/coalescer.ts. A string is the list of its code units.
pub mod Ndjson
pub mod Coalescer
pub mod Latest
