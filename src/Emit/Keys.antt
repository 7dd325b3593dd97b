-- ===== src/Emit/Keys.antt =====
-- internal/emit/metrics.go: what the keys of resources and metrics do not tell apart.
use otelcol_receiver_canopen.Prelude.{◌≡◌, refl, String, false, ◌==◌, string_key}
use otelcol_receiver_canopen.Prelude.Maps.{Map, insert, lookup-insert}
use otelcol_receiver_canopen.Emit.Metrics.{resource_key}

-- Resources that differ in other attributes than the interface and the node have one key.
pub resource_key-insert :
    (k v : String) (attrs : Map String String)
    → (k == "canopen.interface") ≡ false
    → (k == "canopen.node_id") ≡ false
    → resource_key (insert k v attrs) ≡ resource_key attrs
unfolding resource_key
resource_key-insert k v attrs h l =
    rw (lookup-insert k "canopen.interface" v attrs)
      (rw (lookup-insert k "canopen.node_id" v attrs) (rw h (rw l refl)))
