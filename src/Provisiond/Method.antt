-- ===== src/Provisiond/Method.antt =====
-- The methods of internal/provisiond/protocol.go.
use microbe.Base.{Text, codes}

abbrev pub ensure_networks : Text
ensure_networks = codes "ensure_networks"

abbrev pub ensure_taps : Text
ensure_taps = codes "ensure_taps"

abbrev pub apply_ports : Text
apply_ports = codes "apply_ports"

abbrev pub teardown_networks : Text
teardown_networks = codes "teardown_networks"

abbrev pub teardown_taps : Text
teardown_taps = codes "teardown_taps"

abbrev pub teardown_ports : Text
teardown_ports = codes "teardown_ports"

abbrev pub teardown_links : Text
teardown_links = codes "teardown_links"

abbrev pub ensure_prefix : Text
ensure_prefix = codes "ensure_prefix"

abbrev pub apply_rules : Text
apply_rules = codes "apply_rules"

abbrev pub teardown_rules : Text
teardown_rules = codes "teardown_rules"
