-- ===== src/Poolstratum/Stats/Sharing.antt =====
-- Whose record `getCreateStats` returns (src/poolstratum/share_handler.go).
use kaspa_stratum_bridge.Text.{bytes_eq}
use kaspa_stratum_bridge.Prom.Metrics.{Metrics}
