-- ===== src/Transfer/Escape.antt =====
-- Where a received file ends up.
use net_conduit.Protocol.Bytes.{Bytes}
