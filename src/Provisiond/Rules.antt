-- ===== src/Provisiond/Rules.antt =====
-- internal/provisiond/nft.go: the operations on published ports and on the rules between services.
use microbe.Base.{
  true, false, Option, List, map, Text, codes, text_eq, length, contains, if◌then◌else◌, ◌==◌,
  Result, ok, err, Action, return, fail, and_then, each,
}
use microbe.Config.Parsers.{Addr}
use microbe.Provisiond.Specs.{PortSpec, RuleSpec}
use microbe.Provisiond.Expr.{Expr, ExprError, dnat_exprs, port_forward_accept_exprs, rule_exprs}
use microbe.Provisiond.Nft.{
  NftRule, add_rule, NftError, bad_exprs, flush_failed, Nftables, prerouting, forward,
  user_data_prefix, fwd_svc_prefix, port_fwd_prefix, user_data_fingerprint, fingerprint_set, Conn,
  new_conn, enqueue, flush_with, get_rules_of, delete, ensure_nat_chain, ensure_forward_chain,
}
use microbe.Provisiond.Fingerprints.{fingerprint, port_fwd_fingerprint, rule_fingerprint}

module _ {Host : Type 0} (nft : Nftables Host) (parse_ip : Text → Option Addr) where
  -- A range over the rules that deletes those whose tag under the prefix is wanted.
  unfoldable pub delete_tagged :
      Text → List Text → List NftRule → Action (Conn nft) NftError (Unit {0})
  delete_tagged prefix want = each λ rule.
      let tag = user_data_fingerprint rule.user_data prefix in
      if contains tag want then delete nft tag rule else return tt

  legacy_masquerade : Text
  legacy_masquerade = codes "microbe-masq-loopback"

  unfoldable pub prune_output : Action (Conn nft) NftError (Unit {0})
  prune_output = and_then (get_rules_of nft (codes "output")) λ rules.
      each
        (λ rule.
          if length (user_data_fingerprint rule.user_data user_data_prefix) == 0
          then return tt
          else delete nft (codes "legacy output DNAT rule") rule)
        rules

  unfoldable pub prune_postrouting : Action (Conn nft) NftError (Unit {0})
  unfolding legacy_masquerade
  prune_postrouting = and_then (get_rules_of nft (codes "postrouting")) λ rules.
      each
        (λ rule.
          if text_eq rule.user_data legacy_masquerade
          then delete nft (codes "legacy postrouting masquerade") rule
          else return tt)
        rules

  -- `if chain, err := c.ListChain(...); err == nil && chain != nil { ... }`
  unfoldable pub when_chain :
      Text → Action (Conn nft) NftError (Unit {0}) → Action (Conn nft) NftError (Unit {0})
  when_chain chain body (host, queue) = elim (nft.list_chain host chain) [
    | true ↦ body (host, queue)
    | false ↦ (ok tt, (host, queue))
  ]

  unfoldable pub prune_legacy_host_local_nat : Action (Conn nft) NftError (Unit {0})
  prune_legacy_host_local_nat = and_then (when_chain (codes "output") prune_output) λ _.
      and_then (when_chain (codes "postrouting") prune_postrouting) λ _. flush_with nft flush_failed

  -- An expression list that could not be built ends the operation.
  unfoldable pub built : Result ExprError (List Expr) → Action (Conn nft) NftError (List Expr)
  built (ok exprs) = return exprs
  built (err e) = fail (bad_exprs e)

  unfoldable pub add_unless :
      List Text → (chain tag : Text) → List Expr → Action (Conn nft) NftError (Unit {0})
  add_unless have chain tag exprs =
      if contains tag have then return tt else enqueue nft (add_rule chain tag exprs)

  -- The expressions are built before the test here, and behind it for the two kinds of forward rules.
  unfoldable pub apply_dnat : List Text → PortSpec → Action (Conn nft) NftError (Unit {0})
  apply_dnat have port =
      and_then (built (dnat_exprs parse_ip port))
        λ exprs. add_unless have prerouting (fingerprint port) exprs

  unfoldable pub apply_accept : List Text → PortSpec → Action (Conn nft) NftError (Unit {0})
  apply_accept have port =
      if contains (port_fwd_fingerprint port) have
      then return tt
      else and_then (built (port_forward_accept_exprs parse_ip port))
          λ exprs. enqueue nft (add_rule forward (port_fwd_fingerprint port) exprs)

  unfoldable pub apply_port :
      List Text → List Text → PortSpec → Action (Conn nft) NftError (Unit {0})
  apply_port have_in_pre have_in_fwd port =
      and_then (apply_dnat have_in_pre port) λ _. apply_accept have_in_fwd port

  -- `ApplyPorts`
  unfoldable pub apply_ports : List PortSpec → Action (Conn nft) NftError (Unit {0})
  apply_ports ports = and_then (new_conn nft) λ _. and_then (ensure_nat_chain nft) λ _.
      and_then (get_rules_of nft prerouting) λ pre_existing.
        and_then prune_legacy_host_local_nat λ _. and_then (ensure_forward_chain nft) λ _.
          and_then (get_rules_of nft forward) λ fwd_existing.
            and_then
              (each
                (apply_port (fingerprint_set pre_existing user_data_prefix)
                  (fingerprint_set fwd_existing port_fwd_prefix))
                ports)
              λ _. flush_with nft flush_failed

  -- `TeardownPorts`
  unfoldable pub teardown_ports : List PortSpec → Action (Conn nft) NftError (Unit {0})
  teardown_ports ports = and_then (new_conn nft) λ _. and_then (ensure_nat_chain nft) λ _.
      and_then (get_rules_of nft prerouting) λ pre_existing.
        and_then (delete_tagged user_data_prefix (map fingerprint ports) pre_existing) λ _.
          and_then (ensure_forward_chain nft) λ _.
            and_then (get_rules_of nft forward) λ fwd_existing.
              and_then (delete_tagged port_fwd_prefix (map port_fwd_fingerprint ports) fwd_existing)
                λ _. flush_with nft flush_failed

  unfoldable pub apply_rule : List Text → RuleSpec → Action (Conn nft) NftError (Unit {0})
  apply_rule have r =
      if contains (rule_fingerprint r) have
      then return tt
      else and_then (built (rule_exprs parse_ip r))
          λ exprs. enqueue nft (add_rule forward (rule_fingerprint r) exprs)

  -- `ApplyRules`
  unfoldable pub apply_rules : List RuleSpec → Action (Conn nft) NftError (Unit {0})
  apply_rules rules = and_then (new_conn nft) λ _. and_then (ensure_forward_chain nft) λ _.
      and_then (get_rules_of nft forward) λ existing.
        and_then (each (apply_rule (fingerprint_set existing fwd_svc_prefix)) rules)
          λ _. flush_with nft flush_failed

  -- `TeardownRules`
  unfoldable pub teardown_rules : List RuleSpec → Action (Conn nft) NftError (Unit {0})
  teardown_rules rules = and_then (new_conn nft) λ _. and_then (ensure_forward_chain nft) λ _.
      and_then (get_rules_of nft forward) λ existing.
        and_then (delete_tagged fwd_svc_prefix (map rule_fingerprint rules) existing)
          λ _. flush_with nft flush_failed
