-- ===== src/Provisiond/Fingerprints.antt =====
-- The tags of internal/provisiond/nft.go: the user data by which a rule is found again.
use microbe.Base.{◌∷◌, ◌++◌, Text, itoa}
use microbe.Provisiond.Specs.{PortSpec, RuleSpec}
use microbe.Provisiond.Nft.{user_data_prefix, port_fwd_prefix, fwd_svc_prefix}

-- `fmt.Sprintf("%s%d:%s:%d", ...)`
unfoldable pub fingerprint : PortSpec → Text
fingerprint p =
    user_data_prefix ++ (itoa p.host_port ++ b':' ∷ (p.guest_ip ++ b':' ∷ itoa p.guest_port))

unfoldable pub port_fwd_fingerprint : PortSpec → Text
port_fwd_fingerprint p = port_fwd_prefix ++ (p.guest_ip ++ b':' ∷ itoa p.guest_port)

unfoldable pub rule_fingerprint : RuleSpec → Text
rule_fingerprint r =
    fwd_svc_prefix ++ (r.from ++ b'>' ∷ (r.to ++ b':' ∷ (r.proto ++ b':' ∷ itoa r.port)))
