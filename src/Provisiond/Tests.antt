-- ===== src/Provisiond/Tests.antt =====
-- Runs of the daemon's operations on a small firewall, and instances of the theorems on them.
use microbe.Base.{
  ◌⊎◌, ℕ, suc, ◌≡◌, refl, sym, ap, subst, true, false, Bool-cases, pos, inl, inr, Option, none,
  some, List, [], ◌∷◌, ◌++◌, Text, codes, text_eq, text_eq_iff, has_prefix, itoa, digits, each,
  and_then, continue, All, ◌==◌, Result, ok, err, ok_inj, length, replicate, Action, fail, arith,
}
use microbe.Config.Parsers.{Addr, v6}
use microbe.Provisiond.Specs.{TapSpec, PortSpec, RuleSpec}
use microbe.Provisiond.Expr.{
  dnat_exprs, port_forward_accept_exprs, rule_exprs, ipv6_only, proto_num, port_match,
}
use microbe.Provisiond.Nft.{
  NftRule, NftError, Command, add_table, add_chain, add_rule, del_rule, Nftables, forward,
  prerouting, new_conn, ensure_nat_chain, ensure_forward_chain, enqueue, flush_with, get_rules_of,
  add_established, delete, fingerprint_set, user_data_fingerprint,
}
use microbe.Provisiond.Rules.{
  when_chain, prune_legacy_host_local_nat, prune_output, prune_postrouting, delete_tagged, built,
  add_unless, apply_dnat, apply_accept, apply_port, apply_rule, apply_ports, apply_rules,
  teardown_ports, teardown_rules,
}
use microbe.Provisiond.Firewall.{without, run_command, run_batch, FirewallLaws}
use microbe.Provisiond.Applied.{apply_rules-Standing, apply_ports-Standing, Standing}
use microbe.Provisiond.Within.{Cleared}
use microbe.Provisiond.Cleared.{teardown_rules-Cleared, teardown_ports-Cleared}
use microbe.Provisiond.Fingerprints.{fingerprint, port_fwd_fingerprint, rule_fingerprint}
use microbe.Provisiond.Protocol.{Ops}
use microbe.Provisiond.Client.{daemon_error}
use microbe.Provisiond.Client
use microbe.Provisiond.Remote.{through_daemon, AllLoud, client-eq-ops}
use microbe.Provisiond.Ula.{
  FileRead, absent, contents, HostFiles, HostFilesLaws, ensure_prefix, load_host_state,
  generate_and_save, generate_ula_prefix, save, save_step, rename_into_place,
  ensure_prefix_permanent,
}
use microbe.Provisiond.Links.{Link, bridge, tuntap, found, Netlink, tap_link, tap_or_create}
use microbe.Provisiond.Taps.{Fits, Replaces, tap_or_create-found}

err_inj :
    {E A : Type 0} {x y : E} {w w' : ℕ} → ◌≡◌ {A = Result E A × ℕ} (err x, w) (err y, w') → x ≡ y
err_inj e = cc e

abbrev Chained : Text → List NftRule → Type 0
Chained c = All (λ (r : NftRule). r.chain ≡ c)

without-Chained :
    (c : Text) (n : ℕ) (rules : List NftRule) → Chained c rules → Chained c (without n rules)
without-Chained c n [] h = tt
without-Chained c n (r ∷ rules) h = elim (Bool-cases (r.handle == n)) [
  | inl y ↦ rw y (without-Chained c n rules h.1)
  | inr k ↦ rw k (h.0, without-Chained c n rules h.1)
]

append-Chained :
    (c : Text) (xs : List NftRule) (r : NftRule)
    → Chained c xs
    → r.chain ≡ c
    → Chained c (xs ++ r ∷ [])
append-Chained c [] r h e = (e, tt)
append-Chained c (x ∷ xs) r h e = (h.0, append-Chained c xs r h.1 e)

command-Chained :
    (n : ℕ) (c : Text) (cmd : Command) (rules : List NftRule)
    → Chained c rules
    → Chained c (run_command n c cmd rules)
unfolding run_command
command-Chained n c (add_table name) rules h = h
command-Chained n c (add_chain name kind) rules h = h
command-Chained n c (add_rule d tag exprs) rules h = elim (Bool-cases (text_eq d c)) [
  | inl y ↦ rw y (append-Chained c rules _ h ((text_eq_iff d c).0 y))
  | inr k ↦ rw k h
]
command-Chained n c (del_rule rule) rules h = elim (Bool-cases (text_eq rule.chain c)) [
  | inl y ↦ rw y (without-Chained c rule.handle rules h)
  | inr k ↦ rw k h
]

batch-Chained :
    (handles : ℕ → ℕ) (c : Text) (queue : List Command) (rules : List NftRule)
    → Chained c rules
    → Chained c (run_batch handles c queue rules)
unfolding run_batch
batch-Chained handles c [] rules h = h
batch-Chained handles c (cmd ∷ cmds) rules h =
    batch-Chained (λ i. handles (suc i)) c cmds _ (command-Chained (handles 0) c cmd rules h)

-- A firewall that holds a list of rules for each chain.
abbrev Chains : Type 0
Chains = (rules : Text → List NftRule) × ((c : Text) → Chained c (rules c))

abbrev firewall : Nftables Chains
firewall = record {
  connect = λ _. none;
  get_rules = λ host c. ok (host.0 c);
  list_chain = λ host c. true;
  del_error = λ _. none;
  commit = λ host queue. ok (
    λ c. run_batch (λ i. i) c queue (host.0 c),
    λ c. batch-Chained (λ i. i) c queue (host.0 c) (host.1 c),
  );
  ct_mask = 6 ∷ 0 ∷ 0 ∷ 0 ∷ [];
}

firewall_laws : FirewallLaws firewall
firewall_laws = record {
  handle_of = λ _ i. i;
  commit_rules = λ host host' queue c rules e f.
      subst (λ (h : Chains). firewall.get_rules h c ≡ ok (run_batch (λ i. i) c queue rules))
        (ok_inj e) (ap (λ x. ok (run_batch (λ i. i) c queue x)) (ok_inj f));
  chain_of = λ host c rules e. subst (Chained c) (ok_inj e) (host.1 c);
}

abbrev empty_chains : Chains
empty_chains = (λ _. [], λ _. tt)

abbrev any_ip : Text → Option Addr
any_ip text = some (v6 text)

abbrev web_rule : RuleSpec
web_rule = record {
  from = codes "fd00::1";
  to = codes "fd00::2";
  proto = codes "tcp";
  port = pos 80;
}

abbrev web_port : PortSpec
web_port = record { host_port = pos 8080; guest_ip = codes "fd00::1"; guest_port = pos 80 }

abbrev rules_applied : Result NftError (Unit {0}) × (Chains × List Command)
rules_applied = apply_rules firewall any_ip (web_rule ∷ []) (empty_chains, [])

rules_applied_ok : rules_applied ≡ (ok tt, (rules_applied.1.0, rules_applied.1.1))
unfolding apply_rules new_conn ensure_nat_chain ensure_forward_chain enqueue flush_with get_rules_of
    add_established delete each and_then continue fingerprint_set user_data_fingerprint has_prefix
    text_eq run_batch run_command when_chain prune_legacy_host_local_nat prune_output
    prune_postrouting delete_tagged built add_unless apply_dnat apply_accept apply_port apply_rule
    dnat_exprs port_forward_accept_exprs rule_exprs ipv6_only proto_num port_match fingerprint
    port_fwd_fingerprint rule_fingerprint itoa digits
rules_applied_ok = refl

abbrev rules_torn_down : Result NftError (Unit {0}) × (Chains × List Command)
rules_torn_down = teardown_rules firewall any_ip (web_rule ∷ []) rules_applied.1

rules_torn_down_ok : rules_torn_down ≡ (ok tt, (rules_torn_down.1.0, rules_torn_down.1.1))
unfolding teardown_rules apply_rules new_conn ensure_nat_chain ensure_forward_chain enqueue
    flush_with get_rules_of add_established delete each and_then continue fingerprint_set
    user_data_fingerprint has_prefix text_eq run_batch run_command when_chain
    prune_legacy_host_local_nat prune_output prune_postrouting delete_tagged built add_unless
    apply_dnat apply_accept apply_port apply_rule dnat_exprs port_forward_accept_exprs rule_exprs
    ipv6_only proto_num port_match fingerprint port_fwd_fingerprint rule_fingerprint itoa digits
rules_torn_down_ok = refl

abbrev ports_applied : Result NftError (Unit {0}) × (Chains × List Command)
ports_applied = apply_ports firewall any_ip (web_port ∷ []) (empty_chains, [])

ports_applied_ok : ports_applied ≡ (ok tt, (ports_applied.1.0, ports_applied.1.1))
unfolding apply_ports new_conn ensure_nat_chain ensure_forward_chain enqueue flush_with get_rules_of
    add_established delete each and_then continue fingerprint_set user_data_fingerprint has_prefix
    text_eq run_batch run_command when_chain prune_legacy_host_local_nat prune_output
    prune_postrouting delete_tagged built add_unless apply_dnat apply_accept apply_port apply_rule
    dnat_exprs port_forward_accept_exprs rule_exprs ipv6_only proto_num port_match fingerprint
    port_fwd_fingerprint rule_fingerprint itoa digits
ports_applied_ok = refl

abbrev ports_torn_down : Result NftError (Unit {0}) × (Chains × List Command)
ports_torn_down = teardown_ports firewall any_ip (web_port ∷ []) ports_applied.1

ports_torn_down_ok : ports_torn_down ≡ (ok tt, (ports_torn_down.1.0, ports_torn_down.1.1))
unfolding teardown_ports apply_ports new_conn ensure_nat_chain ensure_forward_chain enqueue
    flush_with get_rules_of add_established delete each and_then continue fingerprint_set
    user_data_fingerprint has_prefix text_eq run_batch run_command when_chain
    prune_legacy_host_local_nat prune_output prune_postrouting delete_tagged built add_unless
    apply_dnat apply_accept apply_port apply_rule dnat_exprs port_forward_accept_exprs rule_exprs
    ipv6_only proto_num port_match fingerprint port_fwd_fingerprint rule_fingerprint itoa digits
ports_torn_down_ok = refl

apply_rules_example :
    All (λ r. Standing firewall rules_applied.1.0 forward (rule_fingerprint r)) (web_rule ∷ [])
apply_rules_example =
    apply_rules-Standing firewall firewall_laws any_ip (web_rule ∷ []) (empty_chains, [])
      rules_applied.1.0 rules_applied.1.1 tt rules_applied_ok

teardown_rules_example :
    All (λ r. Cleared firewall rules_torn_down.1.0 forward (rule_fingerprint r)) (web_rule ∷ [])
teardown_rules_example =
    teardown_rules-Cleared firewall firewall_laws any_ip (web_rule ∷ []) rules_applied.1
      rules_torn_down.1.0 rules_torn_down.1.1 tt rules_torn_down_ok

apply_ports_example :
    All
      (λ p.
        Standing firewall ports_applied.1.0 prerouting (fingerprint p)
        × Standing firewall ports_applied.1.0 forward (port_fwd_fingerprint p))
      (web_port ∷ [])
apply_ports_example =
    apply_ports-Standing firewall firewall_laws any_ip (web_port ∷ []) (empty_chains, [])
      ports_applied.1.0 ports_applied.1.1 tt ports_applied_ok

teardown_ports_example :
    All
      (λ p.
        Cleared firewall ports_torn_down.1.0 prerouting (fingerprint p)
        × Cleared firewall ports_torn_down.1.0 forward (port_fwd_fingerprint p))
      (web_port ∷ [])
teardown_ports_example =
    teardown_ports-Cleared firewall firewall_laws any_ip (web_port ∷ []) ports_applied.1
      ports_torn_down.1.0 ports_torn_down.1.1 tt ports_torn_down_ok

-- Operations that count their calls and never fail.
abbrev tick : Action ℕ Text (Unit {0})
tick n = (ok tt, suc n)

abbrev counting_ops : Ops ℕ
counting_ops = record {
  ensure_networks = λ _ _. tick;
  ensure_taps = λ _. tick;
  apply_ports = λ _. tick;
  teardown_networks = λ _ _. tick;
  teardown_taps = λ _. tick;
  teardown_ports = λ _. tick;
  teardown_links = λ _. fail (codes "no such link");
  ensure_prefix = λ n. (ok (codes "fd00::/64"), suc n);
  apply_rules = λ _. tick;
  teardown_rules = λ _. tick;
}

-- `%q` of a text without special characters.
abbrev quoted : Text → Text
quoted text = b'"' ∷ (text ++ b'"' ∷ [])

counting_loud : AllLoud quoted counting_ops
counting_loud = record {
  ensure_networks = λ _ _ w w' e q. absurd (cc q);
  ensure_taps = λ _ w w' e q. absurd (cc q);
  apply_ports = λ _ w w' e q. absurd (cc q);
  teardown_networks = λ _ _ w w' e q. absurd (cc q);
  teardown_taps = λ _ w w' e q. absurd (cc q);
  teardown_ports = λ _ w w' e q. absurd (cc q);
  teardown_links = λ _ w w' e q. subst (λ x. (length x == 0) ≡ false) (err_inj q) refl;
  ensure_prefix = λ w w' e q. absurd (cc q);
  apply_rules = λ _ w w' e q. absurd (cc q);
  teardown_rules = λ _ w w' e q. absurd (cc q);
}

client_example :
    (Client.ensure_networks (through_daemon quoted counting_ops) (codes "web") [] 0 ≡ (ok tt, 1))
    × (Client.ensure_taps (through_daemon quoted counting_ops) [] 0 ≡ (ok tt, 1))
    × (Client.apply_ports (through_daemon quoted counting_ops) (web_port ∷ []) 0 ≡ (ok tt, 1))
    × (Client.teardown_networks (through_daemon quoted counting_ops) (codes "web") [] 0
        ≡ (ok tt, 1))
    × (Client.teardown_taps (through_daemon quoted counting_ops) [] 0 ≡ (ok tt, 1))
    × (Client.teardown_ports (through_daemon quoted counting_ops) (web_port ∷ []) 0 ≡ (ok tt, 1))
    × (Client.teardown_links (through_daemon quoted counting_ops) [] 0
        ≡ (err (daemon_error (codes "no such link")), 0))
    × (Client.ensure_prefix (through_daemon quoted counting_ops) 0 ≡ (ok (codes "fd00::/64"), 1))
    × (Client.apply_rules (through_daemon quoted counting_ops) (web_rule ∷ []) 0 ≡ (ok tt, 1))
    × (Client.teardown_rules (through_daemon quoted counting_ops) (web_rule ∷ []) 0 ≡ (ok tt, 1))
client_example =
    client-eq-ops quoted counting_ops counting_loud (codes "web") [] [] (web_port ∷ []) []
      (web_rule ∷ []) 0

-- A host whose only file is the daemon's, with the prefix itself as its JSON.
abbrev files : HostFiles FileRead
files = record {
  read_file = λ w. w;
  step_error = λ _ _. none;
  rename = λ _ bytes. ok (contents bytes);
  marshal = λ s. s.ula_prefix;
  unmarshal = λ text. some (record { ula_prefix = text });
  rand = λ _ n. some (replicate n 7);
  print_prefix = λ bytes bits. bits ∷ bytes;
}

files_laws : HostFilesLaws files
files_laws = record {
  read-rename = λ w w' bytes e. sym (ok_inj e);
  unmarshal-marshal = λ s. refl;
  prefix_not_empty = λ bytes bits. ground arith;
}

abbrev first_prefix : Text
first_prefix = 64 ∷ 253 ∷ 7 ∷ 7 ∷ 7 ∷ 7 ∷ 7 ∷ replicate 10 0

first_call : ensure_prefix files absent ≡ (ok first_prefix, contents first_prefix)
unfolding ensure_prefix load_host_state generate_and_save generate_ula_prefix save save_step
    rename_into_place and_then continue
first_call = refl

second_call : ensure_prefix files (contents first_prefix) ≡ (ok first_prefix, contents first_prefix)
second_call =
    ensure_prefix_permanent files files_laws first_prefix absent (contents first_prefix) first_call

abbrev tap_spec : TapSpec
tap_spec = record {
  name = codes "mvc-a-b-c";
  bridge = codes "br-a";
  owner = pos 1000;
  group = pos 100;
  multi_queue = true;
}

-- A host whose only link is the bridge that stands under every name until it is deleted.
abbrev in_the_way : Netlink (List Link)
in_the_way = record {
  link_by_name = λ links name. found (bridge name);
  link_add = λ links link. ok (link ∷ links);
  link_del = λ links link. ok [];
  link_set_master = λ links link master. ok links;
  link_set_up = λ links link. ok links;
  parse_addr = λ text. none;
  addr_replace = λ links link addr. ok links;
}

tap_example :
    (Fits tap_spec (bridge tap_spec.name)
      × (tap_or_create in_the_way (λ t. t) tap_spec [] ≡ (ok (bridge tap_spec.name), [])))
    ⊎ (¬ Fits tap_spec (bridge tap_spec.name)
        × Fits tap_spec (tuntap (tap_link tap_spec))
        × Replaces in_the_way
            (λ t. t)
            tap_spec
            (bridge tap_spec.name)
            []
            (tap_or_create in_the_way (λ t. t) tap_spec []))
tap_example = tap_or_create-found in_the_way (λ t. t) tap_spec (bridge tap_spec.name) [] refl
