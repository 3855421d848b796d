-- ===== src/Connections/Wire/Refine.antt =====
-- The peers of app/src/lib/sidecar/protocol/peer.ts refine remote calls.
use capisco.Prelude.{List, nat_eq}
