-- ===== src/Provisiond/Cleared.antt =====
-- What `TeardownPorts` and `TeardownRules` leave behind: no rule of what they were asked for.
use microbe.Base.{
  ◌≡◌, refl, sym, subst, Bool, true, false, Bool-cases, inl, inr, Option, Option-cases, List, [],
  ◌∷◌, map, Text, text_eq, text_eq_iff, text_eq_refl, has_prefix, All, All-map, contains,
  if◌then◌else◌, ok, return, and_then-eq-ok, each, Preserves, and_then-Preserves, return-Preserves,
  if-Preserves, each-Preserves, same_state, arith,
}
use microbe.Config.Parsers.{Addr}
use microbe.Provisiond.Specs.{PortSpec, RuleSpec}
use microbe.Provisiond.Expr.{Expr}
use microbe.Provisiond.Nft.{
  NftRule, add_rule, del_rule, Nftables, Conn, new_conn, enqueue, delete, get_rules_of,
  ensure_nat_chain, ensure_forward_chain, add_established, user_data_fingerprint, prerouting,
  forward, user_data_prefix, fwd_svc_prefix, port_fwd_prefix,
}
use microbe.Provisiond.Fingerprints.{fingerprint, port_fwd_fingerprint, rule_fingerprint}
use microbe.Provisiond.Rules.{delete_tagged, teardown_ports, teardown_rules}
use microbe.Provisiond.Firewall.{
  run_command, FirewallLaws, Pending, enqueue-Preserves, enqueue-Pending, flush_with-Preserves,
  flush_with_done, read_rules,
}
use microbe.Provisiond.Growing.{
  table-Preserves, chain-Preserves, reading-Preserves, delete-Preserves, Pending-map,
}
use microbe.Provisiond.Applied.{
  ensure_nat_chain_empties, ensure_forward_chain_empties, read-Pending,
}
use microbe.Provisiond.Within.{
  within, within_self, within_skip, within-without, within_none, Gone, Cleared, rule_tagged,
  port_tagged, port_fwd_tagged, contains-map, All-both,
}

module _ {Host : Type 0} (nft : Nftables Host) (laws : FirewallLaws nft) where
  -- The steps on the forward chain leave the other chains alone.
  module _ (chain : Text) (P : List NftRule → Type 0) (other : text_eq forward chain ≡ false) where
    add_forward_elsewhere :
        (tag : Text) (exprs : List Expr)
        → Preserves (Pending nft laws chain P) (enqueue nft (add_rule forward tag exprs))
    unfolding run_command
    add_forward_elsewhere tag exprs =
        enqueue-Preserves nft laws chain P (add_rule forward tag exprs) (λ n rules h. rw other h)

    add_established_elsewhere :
        (b : Bool) → Preserves (Pending nft laws chain P) (add_established nft b)
    unfolding add_established
    add_established_elsewhere true = return-Preserves (Pending nft laws chain P) tt
    add_established_elsewhere false =
        and_then-Preserves (Pending nft laws chain P) _ _ (add_forward_elsewhere _ _)
          (λ _. flush_with-Preserves nft laws chain P _)

    ensure_forward_chain_elsewhere : Preserves (Pending nft laws chain P) (ensure_forward_chain nft)
    unfolding ensure_forward_chain
    ensure_forward_chain_elsewhere =
        and_then-Preserves (Pending nft laws chain P) _ _ (table-Preserves nft laws chain P _) (λ _.
          and_then-Preserves (Pending nft laws chain P) _ _ (chain-Preserves nft laws chain P _ _)
            (λ _.
              and_then-Preserves (Pending nft laws chain P) _ _
                (flush_with-Preserves nft laws chain P _)
                (λ _.
                  reading-Preserves nft laws chain P _ _ (λ rules _. add_established_elsewhere _))))

  delete_tagged_elsewhere :
      (parse_ip : Text → Option Addr) (chain : Text) (P : List NftRule → Type 0) (c prefix : Text)
      (want : List Text) (rules : List NftRule)
      → text_eq c chain ≡ false
      → All (λ (r : NftRule). r.chain ≡ c) rules
      → Preserves (Pending nft laws chain P) (delete_tagged nft parse_ip prefix want rules)
  unfolding delete_tagged
  delete_tagged_elsewhere parse_ip chain P c prefix want rules other all =
      each-Preserves (Pending nft laws chain P) _ rules (
        All-map rules
          (λ rule e.
            if-Preserves (Pending nft laws chain P) _ _ _
              (delete-Preserves nft laws chain P _ rule
                (subst (λ x. text_eq x chain ≡ false) (sym e) other))
              (return-Preserves (Pending nft laws chain P) tt))
          all)

  delete_enqueues :
      (tag : Text) (rule : NftRule) (s t : Conn nft) (a : Unit {0})
      → delete nft tag rule s ≡ (ok a, t)
      → enqueue nft (del_rule rule) s ≡ (ok a, t)
  unfolding delete
  delete_enqueues tag rule s t a q = elim (Option-cases (nft.del_error rule)) [
    | inl e ↦ rw (e, delete) at q
    | inr (x, e) ↦ absurd (cc (rw (e, delete) at q))
  ]

  module _ (parse_ip : Text → Option Addr) (chain prefix tag : Text) (want : List Text)
      (wanted : contains tag want ≡ true) (tagged : has_prefix tag prefix ≡ true) where
    not_tag :
        (rule : NftRule)
        → contains (user_data_fingerprint rule.user_data prefix) want ≡ false
        → text_eq tag rule.user_data ≡ false
    unfolding user_data_fingerprint
    not_tag rule h = ground (arith, h, wanted, tagged, text_eq_iff tag rule.user_data)

    clears_round :
        (x : NftRule) (xs : List NftRule) (s u : Conn nft) (b : Unit {0})
        → x.chain ≡ chain
        → Pending nft laws chain (λ rs. within tag (x ∷ xs) rs ≡ true) s
        → (if contains (user_data_fingerprint x.user_data prefix) want
              then delete nft (user_data_fingerprint x.user_data prefix) x
              else return tt)
            s
          ≡ (ok b, u)
        → Pending nft laws chain (λ rs. within tag xs rs ≡ true) u
    unfolding run_command
    clears_round x xs s u b of p e =
        elim (Bool-cases (contains (user_data_fingerprint x.user_data prefix) want)) [
          | inl y ↦
              enqueue-Pending nft laws chain (λ rs. within tag (x ∷ xs) rs ≡ true)
                (λ rs. within tag xs rs ≡ true) (del_rule x)
                (λ n rs h. rw of (rw (text_eq_refl chain) (within-without tag x xs rs h))) s u b p
                (delete_enqueues _ x s u b (rw y at e))
          | inr n ↦
              subst (Pending nft laws chain (λ rs. within tag xs rs ≡ true))
                (same_state (rw n at e))
                (Pending-map nft laws chain (λ rs. within tag (x ∷ xs) rs ≡ true)
                  (λ rs. within tag xs rs ≡ true) s
                  (λ rs h. within_skip tag x xs rs (not_tag x n) h) p)
        ]

    delete_tagged_clears :
        (xs : List NftRule)
        → All (λ (r : NftRule). r.chain ≡ chain) xs
        → (s t : Conn nft) (a : Unit {0}) → Pending nft laws chain (λ rs. within tag xs rs ≡ true) s
        → delete_tagged nft parse_ip prefix want xs s ≡ (ok a, t)
        → Pending nft laws chain (Gone tag) t
    unfolding delete_tagged each
    delete_tagged_clears [] all s t a p q =
        subst (Pending nft laws chain (Gone tag)) (same_state q) (
          Pending-map nft laws chain (λ rs. within tag [] rs ≡ true) (Gone tag) s
            (λ rs h. within_none tag rs h) p)
    delete_tagged_clears (x ∷ xs) all s t a p q =
        let (b, u, e, f) =
          and_then-eq-ok
            (if contains (user_data_fingerprint x.user_data prefix) want
              then delete nft (user_data_fingerprint x.user_data prefix) x
              else return tt)
            (λ _. delete_tagged nft parse_ip prefix want xs) s q in
        delete_tagged_clears xs all.1 u t a (clears_round x xs s u b all.0 p e) f

  module _ (parse_ip : Text → Option Addr) where
    -- A read, and the deletion of what is wanted of it.
    read_then_cleared :
        (chain prefix tag : Text) (want : List Text) (s u t : Conn nft) (existing : List NftRule)
        (a : Unit {0})
        → contains tag want ≡ true
        → has_prefix tag prefix ≡ true
        → s.1 ≡ []
        → get_rules_of nft chain s ≡ (ok existing, u)
        → delete_tagged nft parse_ip prefix want existing u ≡ (ok a, t)
        → Pending nft laws chain (Gone tag) t
    read_then_cleared chain prefix tag want s u t existing a wanted tagged empty e q =
        delete_tagged_clears parse_ip chain prefix tag want wanted tagged existing
          (laws.chain_of s.0 chain existing (read_rules nft laws chain s u existing e).1) u t a
          (read-Pending nft laws chain (λ x. within tag existing x ≡ true) s u existing empty e
            (within_self tag existing))
          q

    -- Where nftables runs transactions as documented and TeardownRules succeeds, the forward chain
    -- has no rule under the tag of any rule that it was given.
    pub teardown_rules-Cleared :
        (rules : List RuleSpec) (s : Conn nft) (host' : Host) (queue' : List _) (a : Unit {0})
        → teardown_rules nft parse_ip rules s ≡ (ok a, (host', queue'))
        → All (λ r. Cleared nft host' forward (rule_fingerprint r)) rules
    unfolding teardown_rules
    teardown_rules-Cleared rules s host' queue' a q =
        let (a1, s1, e1, f1) = and_then-eq-ok (new_conn nft) _ s q in
        let (a2, s2, e2, f2) = and_then-eq-ok (ensure_forward_chain nft) _ s1 f1 in
        let (existing, s3, e3, f3) = and_then-eq-ok (get_rules_of nft forward) _ s2 f2 in
        let (a4, s4, e4, f4) =
          and_then-eq-ok
            (delete_tagged nft parse_ip fwd_svc_prefix (map rule_fingerprint rules) existing) _ s3
            f3 in
        All-map rules
          (λ r m.
            flush_with_done nft laws forward (Gone (rule_fingerprint r)) _ s4 host' queue' a
              (read_then_cleared forward fwd_svc_prefix (rule_fingerprint r) _ s2 s3 s4 existing a4
                m (rule_tagged r) (ensure_forward_chain_empties nft laws s1 s2 a2 e2) e3 e4)
              f4)
          (contains-map rule_fingerprint rules)

    -- Where nftables runs transactions as documented and TeardownPorts succeeds, no port that it
    -- was given has a rule under its DNAT tag in the prerouting chain or under its forward tag in
    -- the forward chain.
    pub teardown_ports-Cleared :
        (ports : List PortSpec) (s : Conn nft) (host' : Host) (queue' : List _) (a : Unit {0})
        → teardown_ports nft parse_ip ports s ≡ (ok a, (host', queue'))
        → All
            (λ p.
              Cleared nft host' prerouting (fingerprint p)
              × Cleared nft host' forward (port_fwd_fingerprint p))
            ports
    unfolding teardown_ports
    teardown_ports-Cleared ports s host' queue' a q =
        let (a1, s1, e1, f1) = and_then-eq-ok (new_conn nft) _ s q in
        let (a2, s2, e2, f2) = and_then-eq-ok (ensure_nat_chain nft) _ s1 f1 in
        let (existing, s3, e3, f3) = and_then-eq-ok (get_rules_of nft prerouting) _ s2 f2 in
        let (a4, s4, e4, f4) =
          and_then-eq-ok
            (delete_tagged nft parse_ip user_data_prefix (map fingerprint ports) existing) _ s3
            f3 in
        let (a5, s5, e5, f5) = and_then-eq-ok (ensure_forward_chain nft) _ s4 f4 in
        let (existing', s6, e6, f6) = and_then-eq-ok (get_rules_of nft forward) _ s5 f5 in
        let (a7, s7, e7, f7) =
          and_then-eq-ok
            (delete_tagged nft parse_ip port_fwd_prefix (map port_fwd_fingerprint ports) existing')
            _ s6 f6 in
        All-map ports
          (λ p m. (
            flush_with_done nft laws prerouting (Gone (fingerprint p)) _ s7 host' queue' a
                (delete_tagged_elsewhere parse_ip prerouting (Gone (fingerprint p)) forward
                  port_fwd_prefix _ existing' (unfold text_eq in refl)
                  (laws.chain_of s5.0 forward existing'
                    (read_rules nft laws forward s5 s6 existing' e6).1)
                  s6 s7 a7
                  (subst (Pending nft laws prerouting (Gone (fingerprint p)))
                    (read_rules nft laws forward s5 s6 existing' e6).0
                    (ensure_forward_chain_elsewhere prerouting (Gone (fingerprint p))
                      (unfold text_eq in refl) s4 s5 a5
                      (read_then_cleared prerouting user_data_prefix (fingerprint p) _ s2 s3 s4
                        existing a4 m.0 (port_tagged p)
                        (ensure_nat_chain_empties nft laws s1 s2 a2 e2) e3 e4)
                      e5))
                  e7)
                f7,
            flush_with_done nft laws forward (Gone (port_fwd_fingerprint p)) _ s7 host' queue' a
                (read_then_cleared forward port_fwd_prefix (port_fwd_fingerprint p) _ s5 s6 s7
                  existing' a7 m.1 (port_fwd_tagged p)
                  (ensure_forward_chain_empties nft laws s4 s5 a5 e5) e6 e7)
                f7,
          ))
          (All-both _ _ ports (contains-map fingerprint ports)
            (contains-map port_fwd_fingerprint ports))
