-- ===== src/Provisiond/Applied.antt =====
-- What `ApplyPorts` and `ApplyRules` leave behind: the rules of what they were asked for.
use microbe.Base.{
  ◌≡◌, refl, sym, ap, subst, Bool, true, false, inl, inr, Option, List, [], Text, text_eq, All,
  All-map, contains, ok, Result-cases, and_then-eq-ok, each, Preserves, and_then-Preserves,
  each_establishes, same_state,
}
use microbe.Config.Parsers.{Addr}
use microbe.Provisiond.Specs.{PortSpec, RuleSpec}
use microbe.Provisiond.Expr.{rule_exprs, dnat_exprs, port_forward_accept_exprs}
use microbe.Provisiond.Nft.{
  NftRule, NftError, Nftables, Conn, new_conn, flush_with, get_rules_of, ensure_nat_chain,
  ensure_forward_chain, add_established, fingerprint_set, prerouting, forward, user_data_prefix,
  fwd_svc_prefix, port_fwd_prefix,
}
use microbe.Provisiond.Fingerprints.{fingerprint, port_fwd_fingerprint, rule_fingerprint}
use microbe.Provisiond.Rules.{
  built, apply_dnat, apply_accept, apply_port, apply_ports, apply_rule, apply_rules,
  prune_legacy_host_local_nat,
}
use microbe.Provisiond.Firewall.{
  tags, run_batch, FirewallLaws, Pending, flush_with_done, read_rules,
}
use microbe.Provisiond.Growing.{
  Grows, Stands, Have, Stands-grows, Have-grows, fingerprint_set-Have,
  ensure_forward_chain-Preserves, prune-Preserves, built-Preserves, apply_dnat-Preserves,
  apply_accept-Preserves, apply_rule-Preserves, add_unless-Stands, built_then-Stands,
}

-- The chain holds a rule of this tag.
abbrev pub Standing : {Host : Type 0} → Nftables Host → Host → Text → Text → Type 0
Standing nft host chain tag =
    (rules : List NftRule) × (nft.get_rules host chain ≡ ok rules)
    × (contains tag (tags rules) ≡ true)

module _ {Host : Type 0} (nft : Nftables Host) (laws : FirewallLaws nft) where
  -- Nothing waits behind a flush that succeeded.
  pub flush_empties :
      (wrap : Text → NftError) (s t : Conn nft) (a : Unit {0})
      → flush_with nft wrap s ≡ (ok a, t)
      → t.1 ≡ []
  unfolding flush_with
  flush_empties wrap (host, queue) t a q = elim (Result-cases (nft.commit host queue)) [
    | inl (host', e) ↦ ap (λ (x : Conn nft). x.1) (sym (same_state (rw (e, flush_with) at q)))
    | inr (x, e) ↦ absurd (cc (rw (e, flush_with) at q))
  ]

  pub ensure_nat_chain_empties :
      (s t : Conn nft) (a : Unit {0}) → ensure_nat_chain nft s ≡ (ok a, t) → t.1 ≡ []
  unfolding ensure_nat_chain
  ensure_nat_chain_empties s t a q =
      let (b, u, e1, e2) = and_then-eq-ok _ _ s q in
      let (c, v, e3, e4) = and_then-eq-ok _ _ u e2 in flush_empties _ v t a e4

  add_established_empties :
      (b : Bool) (s t : Conn nft) (a : Unit {0})
      → s.1 ≡ []
      → add_established nft b s ≡ (ok a, t)
      → t.1 ≡ []
  unfolding add_established
  add_established_empties true s t a h q = subst (λ (x : Conn nft). x.1 ≡ []) (same_state q) h
  add_established_empties false s t a h q =
      let (b, u, e1, e2) = and_then-eq-ok _ _ s q in flush_empties _ u t a e2

  pub ensure_forward_chain_empties :
      (s t : Conn nft) (a : Unit {0}) → ensure_forward_chain nft s ≡ (ok a, t) → t.1 ≡ []
  unfolding ensure_forward_chain
  ensure_forward_chain_empties s t a q =
      let (b, u, e1, e2) = and_then-eq-ok _ _ s q in
      let (c, v, e3, e4) = and_then-eq-ok _ _ u e2 in
      let (d, w, e5, e6) = and_then-eq-ok _ _ v e4 in
      let (rules, x, e7, e8) = and_then-eq-ok (get_rules_of nft forward) _ w e6 in
      add_established_empties _ x t a
        (subst (λ (y : Conn nft). y.1 ≡ []) (read_rules nft laws forward w x rules e7).0
          (flush_empties _ v w d e5))
        e8

  -- What was just read stands, where nothing waits.
  pub read-Pending :
      (chain : Text) (P : List NftRule → Type 0) (s t : Conn nft) (rules : List NftRule)
      → s.1 ≡ []
      → get_rules_of nft chain s ≡ (ok rules, t)
      → P rules
      → Pending nft laws chain P t
  unfolding run_batch
  read-Pending chain P (host, queue) t rules h q p =
      let (e, g) = read_rules nft laws chain (host, queue) t rules q in
      subst (Pending nft laws chain P) e
        (rules, g, subst (λ c. P (run_batch (laws.handle_of host) chain c rules)) (sym h) p)

  module _ (parse_ip : Text → Option Addr) where
    -- Where nftables runs transactions as documented and ApplyRules succeeds, each rule that it
    -- was given has a rule under its tag in the forward chain, whatever the chains held before.
    pub apply_rules-Standing :
        (rules : List RuleSpec) (s : Conn nft) (host' : Host) (queue' : List _) (a : Unit {0})
        → apply_rules nft parse_ip rules s ≡ (ok a, (host', queue'))
        → All (λ r. Standing nft host' forward (rule_fingerprint r)) rules
    unfolding apply_rules
    apply_rules-Standing rules s host' queue' a q =
        let (a1, s1, e1, f1) = and_then-eq-ok (new_conn nft) _ s q in
        let (a2, s2, e2, f2) = and_then-eq-ok (ensure_forward_chain nft) _ s1 f1 in
        let (existing, s3, e3, f3) = and_then-eq-ok (get_rules_of nft forward) _ s2 f2 in
        let have = fingerprint_set existing fwd_svc_prefix in
        let (a4, s4, e4, f4) = and_then-eq-ok (each (apply_rule nft parse_ip have) rules) _ s3 f3 in
        let all =
          each_establishes (Pending nft laws forward (Have have))
            (λ r. Pending nft laws forward (Stands (rule_fingerprint r)))
            (apply_rule nft parse_ip have) rules
            (λ r.
              apply_rule-Preserves nft laws forward (Have have) (Have-grows have) parse_ip have r)
            (λ r r'.
              apply_rule-Preserves nft laws forward _ (Stands-grows (rule_fingerprint r')) parse_ip
                have r)
            (λ r u t b p e.
              built_then-Stands nft laws parse_ip forward (rule_fingerprint r) have
                (rule_exprs parse_ip r) u t b p (unfold apply_rule in e))
            s3 s4 a4
            (read-Pending forward (Have have) s2 s3 existing
              (ensure_forward_chain_empties s1 s2 a2 e2) e3
              (fingerprint_set-Have existing fwd_svc_prefix))
            e4 in
        All-map rules
          (λ r p.
            flush_with_done nft laws forward (Stands (rule_fingerprint r)) _ s4 host' queue' a p f4)
          all

    apply_port-Preserves :
        (chain : Text) (P : List NftRule → Type 0) (grows : Grows P) (have have' : List Text)
        (p : PortSpec)
        → Preserves (Pending nft laws chain P) (apply_port nft parse_ip have have' p)
    unfolding apply_port
    apply_port-Preserves chain P grows have have' p =
        and_then-Preserves (Pending nft laws chain P) _ _
          (apply_dnat-Preserves nft laws chain P grows parse_ip have p)
          (λ _. apply_accept-Preserves nft laws chain P grows parse_ip have' p)

    -- The two rules of a port, once the queue is flushed.
    abbrev BothPending : PortSpec → Conn nft → Type 0
    BothPending p s =
        Pending nft laws prerouting (Stands (fingerprint p)) s
        × Pending nft laws forward (Stands (port_fwd_fingerprint p)) s

    abbrev BothHave : List Text → List Text → Conn nft → Type 0
    BothHave have have' s =
        Pending nft laws prerouting (Have have) s × Pending nft laws forward (Have have') s

    apply_port_stands :
        (have have' : List Text) (p : PortSpec) (s t : Conn nft) (a : Unit {0})
        → BothHave have have' s
        → apply_port nft parse_ip have have' p s ≡ (ok a, t)
        → BothPending p t
    unfolding apply_port apply_dnat
    apply_port_stands have have' p s t a (h, h') q =
        let (b, u, e1, e2) = and_then-eq-ok (apply_dnat nft parse_ip have p) _ s q in
        let (exprs, v, e3, e4) =
          and_then-eq-ok (built nft parse_ip (dnat_exprs parse_ip p)) _ s e1 in
        let accept_keeps =
          apply_accept-Preserves nft laws prerouting _ (Stands-grows (fingerprint p)) parse_ip have'
            p in
        let built_keeps =
          built-Preserves nft laws prerouting (Have have) (Have-grows have) parse_ip
            (dnat_exprs parse_ip p) in
        let dnat_keeps =
          apply_dnat-Preserves nft laws forward (Have have') (Have-grows have') parse_ip have p in
        (
          accept_keeps u t a
              (add_unless-Stands nft laws parse_ip prerouting (fingerprint p) have exprs v u b
                (built_keeps s v exprs h e3) e4)
              e2,
          built_then-Stands nft laws parse_ip forward (port_fwd_fingerprint p) have'
              (port_forward_accept_exprs parse_ip p) u t a (dnat_keeps s u b h' e1)
              (unfold apply_accept in e2),
        )

    -- Where nftables runs transactions as documented and ApplyPorts succeeds, each port that it
    -- was given has a rule under its DNAT tag in the prerouting chain and a rule under its forward
    -- tag in the forward chain, whatever the chains held before and whatever was pruned.
    pub apply_ports-Standing :
        (ports : List PortSpec) (s : Conn nft) (host' : Host) (queue' : List _) (a : Unit {0})
        → apply_ports nft parse_ip ports s ≡ (ok a, (host', queue'))
        → All
            (λ p.
              Standing nft host' prerouting (fingerprint p)
              × Standing nft host' forward (port_fwd_fingerprint p))
            ports
    unfolding apply_ports
    apply_ports-Standing ports s host' queue' a q =
        let (a1, s1, e1, f1) = and_then-eq-ok (new_conn nft) _ s q in
        let (a2, s2, e2, f2) = and_then-eq-ok (ensure_nat_chain nft) _ s1 f1 in
        let (existing, s3, e3, f3) = and_then-eq-ok (get_rules_of nft prerouting) _ s2 f2 in
        let (a4, s4, e4, f4) = and_then-eq-ok (prune_legacy_host_local_nat nft parse_ip) _ s3 f3 in
        let (a5, s5, e5, f5) = and_then-eq-ok (ensure_forward_chain nft) _ s4 f4 in
        let (existing', s6, e6, f6) = and_then-eq-ok (get_rules_of nft forward) _ s5 f5 in
        let have = fingerprint_set existing user_data_prefix in
        let have' = fingerprint_set existing' port_fwd_prefix in
        let (a7, s7, e7, f7) =
          and_then-eq-ok (each (apply_port nft parse_ip have have') ports) _ s6 f6 in
        let P3 =
          read-Pending prerouting (Have have) s2 s3 existing (ensure_nat_chain_empties s1 s2 a2 e2)
            e3 (fingerprint_set-Have existing user_data_prefix) in
        let P4 =
          prune-Preserves nft laws prerouting (Have have) (Have-grows have) parse_ip
            (unfold text_eq in refl) (unfold text_eq in refl) s3 s4 a4 P3 e4 in
        let P5 =
          ensure_forward_chain-Preserves nft laws prerouting (Have have) (Have-grows have) s4 s5 a5
            P4 e5 in
        let P6 =
          subst (Pending nft laws prerouting (Have have))
            (read_rules nft laws forward s5 s6 existing' e6).0 P5 in
        let F6 =
          read-Pending forward (Have have') s5 s6 existing'
            (ensure_forward_chain_empties s4 s5 a5 e5) e6
            (fingerprint_set-Have existing' port_fwd_prefix) in
        let all =
          each_establishes (BothHave have have') BothPending (apply_port nft parse_ip have have')
            ports
            (λ p u t b h e. (
              apply_port-Preserves prerouting _ (Have-grows have) have have' p u t b h.0 e,
              apply_port-Preserves forward _ (Have-grows have') have have' p u t b h.1 e,
            ))
            (λ p p' u t b h e. (
              apply_port-Preserves prerouting _ (Stands-grows (fingerprint p')) have have' p u t b
                  h.0 e,
              apply_port-Preserves forward _ (Stands-grows (port_fwd_fingerprint p')) have have' p u
                  t b h.1 e,
            ))
            (apply_port_stands have have') s6 s7 a7 (P6, F6) e7 in
        All-map ports
          (λ p h. (
            flush_with_done nft laws prerouting (Stands (fingerprint p)) _ s7 host' queue' a h.0 f7,
            flush_with_done nft laws forward (Stands (port_fwd_fingerprint p)) _ s7 host' queue' a
                h.1 f7,
          ))
          all
