-- ===== src/Provisiond/Growing.antt =====
-- The steps of internal/provisiond/nft.go that take no rule out of a chain.
use microbe.Base.{
  ℕ, ◌≡◌, sym, subst, Bool, true, false, Bool-cases, inl, inr, Option, Option-cases, List, [], ◌∷◌,
  ◌++◌, Text, codes, text_eq, text_eq_refl, All, All-map, contains, contains-append, if◌then◌else◌,
  Result, ok, err, Action, return, and_then, and_then-eq-ok, each, Preserves, and_then-Preserves,
  return-Preserves, if-Preserves, each-Preserves, same_state, arith,
}
use microbe.Provisiond.Expr.{Expr, ExprError}
use microbe.Provisiond.Nft.{
  NftRule, add_table, add_chain, add_rule, del_rule, NftError, Nftables, Conn, enqueue,
  get_rules_of, delete, ensure_forward_chain, add_established, user_data_fingerprint,
  fingerprint_set,
}
use microbe.Config.Parsers.{Addr}
use microbe.Provisiond.Specs.{PortSpec, RuleSpec}
use microbe.Provisiond.Rules.{
  prune_output, prune_postrouting, when_chain, prune_legacy_host_local_nat, built, add_unless,
  apply_dnat, apply_accept, apply_rule,
}
use microbe.Provisiond.Firewall.{
  tags, tags-append, run_command, FirewallLaws, Pending, enqueue-Preserves, enqueue-Pending,
  flush_with-Preserves, read_rules,
}

-- A property of a chain that more rules do not spoil.
abbrev pub Grows : (List NftRule → Type 0) → Type 0
Grows P = (rules : List NftRule) (rule : NftRule) → P rules → P (rules ++ rule ∷ [])

abbrev pub Stands : Text → List NftRule → Type 0
Stands tag rules = contains tag (tags rules) ≡ true

abbrev pub Have : List Text → List NftRule → Type 0
Have have rules = (tag : Text) → contains tag have ≡ true → contains tag (tags rules) ≡ true

pub Stands-grows : (tag : Text) → Grows (Stands tag)
Stands-grows tag rules rule h = ground (
  arith,
  h,
  tags-append rules (rule ∷ []),
  contains-append tag (tags rules) (rule.user_data ∷ []),
)

pub Have-grows : (have : List Text) → Grows (Have have)
Have-grows have rules rule h tag k = Stands-grows tag rules rule (h tag k)

-- The tags of a fingerprint set are those of rules.
pub fingerprint_set-Have :
    (rules : List NftRule) (prefix : Text) → Have (fingerprint_set rules prefix) rules
unfolding fingerprint_set user_data_fingerprint
fingerprint_set-Have [] prefix tag h = h
fingerprint_set-Have (rule ∷ rules) prefix tag h =
    ground (arith, fingerprint_set-Have rules prefix tag, h)

module _ {Host : Type 0} (nft : Nftables Host) (laws : FirewallLaws nft) where
  module _ (chain : Text) (P : List NftRule → Type 0) where
    pub table-Preserves :
        (name : Text) → Preserves (Pending nft laws chain P) (enqueue nft (add_table name))
    unfolding run_command
    table-Preserves name = enqueue-Preserves nft laws chain P (add_table name) (λ n rules h. h)

    pub chain-Preserves :
        (name : Text) (kind : _)
        → Preserves (Pending nft laws chain P) (enqueue nft (add_chain name kind))
    unfolding run_command
    chain-Preserves name kind =
        enqueue-Preserves nft laws chain P (add_chain name kind) (λ n rules h. h)

    pub delete-Preserves :
        (tag : Text) (rule : NftRule)
        → text_eq rule.chain chain ≡ false
        → Preserves (Pending nft laws chain P) (delete nft tag rule)
    unfolding delete run_command
    delete-Preserves tag rule h s t a p q = elim (Option-cases (nft.del_error rule)) [
      | inl e ↦
          enqueue-Preserves nft laws chain P (del_rule rule) (λ n rules z. rw h z) s t a p
            (rw (e, delete) at q)
      | inr (x, e) ↦ absurd (cc (rw (e, delete) at q))
    ]

    pub reading-Preserves :
        {B : Type 0} (c : Text) (k : List NftRule → Action (Conn nft) NftError B)
        → ((rules : List NftRule)
            → All (λ (r : NftRule). r.chain ≡ c) rules
            → Preserves (Pending nft laws chain P) (k rules))
        → Preserves (Pending nft laws chain P) (and_then (get_rules_of nft c) k)
    reading-Preserves c k keep s t b p q =
        let (rules, u, e1, e2) = and_then-eq-ok (get_rules_of nft c) k s q in
        let (f, g) = read_rules nft laws c s u rules e1 in
        keep rules (laws.chain_of s.0 c rules g) u t b (subst (Pending nft laws chain P) f p) e2

  module _ (chain : Text) (P : List NftRule → Type 0) (grows : Grows P) where
    run_add :
        (c tag : Text) (exprs : List Expr) (n : ℕ) (rules : List NftRule)
        → P rules
        → P (run_command n chain (add_rule c tag exprs) rules)
    unfolding run_command
    run_add c tag exprs n rules h = elim (Bool-cases (text_eq c chain)) [
      | inl y ↦ rw y (grows rules _ h)
      | inr k ↦ rw k h
    ]

    pub add-Preserves :
        (c tag : Text) (exprs : List Expr)
        → Preserves (Pending nft laws chain P) (enqueue nft (add_rule c tag exprs))
    add-Preserves c tag exprs =
        enqueue-Preserves nft laws chain P (add_rule c tag exprs) (run_add c tag exprs)

    pub add_established-Preserves :
        (b : Bool) → Preserves (Pending nft laws chain P) (add_established nft b)
    unfolding add_established
    add_established-Preserves true = return-Preserves (Pending nft laws chain P) tt
    add_established-Preserves false =
        and_then-Preserves (Pending nft laws chain P) _ _ (add-Preserves _ _ _)
          (λ _. flush_with-Preserves nft laws chain P _)

    pub ensure_forward_chain-Preserves :
        Preserves (Pending nft laws chain P) (ensure_forward_chain nft)
    unfolding ensure_forward_chain
    ensure_forward_chain-Preserves =
        and_then-Preserves (Pending nft laws chain P) _ _ (table-Preserves chain P _) (λ _.
          and_then-Preserves (Pending nft laws chain P) _ _ (chain-Preserves chain P _ _) (λ _.
            and_then-Preserves (Pending nft laws chain P) _ _
              (flush_with-Preserves nft laws chain P _)
              (λ _. reading-Preserves chain P _ _ (λ rules _. add_established-Preserves _))))

    module _ (parse_ip : Text → Option Addr) where
      when_chain-Preserves :
          (c : Text) (body : Action (Conn nft) NftError (Unit {0}))
          → Preserves (Pending nft laws chain P) body
          → Preserves (Pending nft laws chain P) (when_chain nft parse_ip c body)
      unfolding when_chain
      when_chain-Preserves c body keep (host, queue) t a p q =
          elim (Bool-cases (nft.list_chain host c)) [
            | inl y ↦ keep (host, queue) t a p (rw (y, when_chain) at q)
            | inr n ↦ subst (Pending nft laws chain P) (same_state (rw (n, when_chain) at q)) p
          ]

      -- Loops that delete rules of another chain.
      each_elsewhere :
          (c : Text) (f : NftRule → Action (Conn nft) NftError (Unit {0}))
          → text_eq c chain ≡ false
          → ((rule : NftRule)
              → text_eq rule.chain chain ≡ false
              → Preserves (Pending nft laws chain P) (f rule))
          → (rules : List NftRule) → All (λ (r : NftRule). r.chain ≡ c) rules
          → Preserves (Pending nft laws chain P) (each f rules)
      each_elsewhere c f other keep rules all = each-Preserves (Pending nft laws chain P) f rules (
          All-map rules (λ rule e. keep rule (subst (λ x. text_eq x chain ≡ false) (sym e) other))
            all)

      pub prune-Preserves :
          text_eq (codes "output") chain ≡ false
          → text_eq (codes "postrouting") chain ≡ false
          → Preserves (Pending nft laws chain P) (prune_legacy_host_local_nat nft parse_ip)
      unfolding prune_legacy_host_local_nat prune_output prune_postrouting
      prune-Preserves out post =
          and_then-Preserves (Pending nft laws chain P) _ _
            (when_chain-Preserves _ _ (
              reading-Preserves chain P _ _ (
                each_elsewhere (codes "output") _ out (λ rule h.
                  if-Preserves (Pending nft laws chain P) _ _ _
                    (return-Preserves (Pending nft laws chain P) tt)
                    (delete-Preserves chain P _ rule h)))))
            (λ _.
              and_then-Preserves (Pending nft laws chain P) _ _
                (when_chain-Preserves _ _ (
                  reading-Preserves chain P _ _ (
                    each_elsewhere (codes "postrouting") _ post (λ rule h.
                      if-Preserves (Pending nft laws chain P) _ _ _
                        (delete-Preserves chain P _ rule h)
                        (return-Preserves (Pending nft laws chain P) tt)))))
                (λ _. flush_with-Preserves nft laws chain P _))

      pub built-Preserves :
          (r : Result ExprError (List Expr))
          → Preserves (Pending nft laws chain P) (built nft parse_ip r)
      unfolding built
      built-Preserves (ok exprs) = return-Preserves (Pending nft laws chain P) exprs
      built-Preserves (err e) = λ s t a p q. absurd (cc q)

      pub apply_dnat-Preserves :
          (have : List Text) (port : PortSpec)
          → Preserves (Pending nft laws chain P) (apply_dnat nft parse_ip have port)
      unfolding apply_dnat add_unless
      apply_dnat-Preserves have port =
          and_then-Preserves (Pending nft laws chain P) _ _ (built-Preserves _) (λ exprs.
            if-Preserves (Pending nft laws chain P) _ _ _
              (return-Preserves (Pending nft laws chain P) tt) (add-Preserves _ _ _))

      pub apply_accept-Preserves :
          (have : List Text) (port : PortSpec)
          → Preserves (Pending nft laws chain P) (apply_accept nft parse_ip have port)
      unfolding apply_accept
      apply_accept-Preserves have port =
          if-Preserves (Pending nft laws chain P) _ _ _
            (return-Preserves (Pending nft laws chain P) tt)
            (and_then-Preserves (Pending nft laws chain P) _ _ (built-Preserves _)
              (λ exprs. add-Preserves _ _ _))

      pub apply_rule-Preserves :
          (have : List Text) (r : RuleSpec)
          → Preserves (Pending nft laws chain P) (apply_rule nft parse_ip have r)
      unfolding apply_rule
      apply_rule-Preserves have r =
          if-Preserves (Pending nft laws chain P) _ _ _
            (return-Preserves (Pending nft laws chain P) tt)
            (and_then-Preserves (Pending nft laws chain P) _ _ (built-Preserves _)
              (λ exprs. add-Preserves _ _ _))

  -- A rule that is added stands under its tag.
  pub add-Stands :
      (chain tag : Text) (P : List NftRule → Type 0) (exprs : List Expr) (s t : Conn nft)
      (a : Unit {0})
      → Pending nft laws chain P s
      → enqueue nft (add_rule chain tag exprs) s ≡ (ok a, t)
      → Pending nft laws chain (Stands tag) t
  unfolding run_command
  add-Stands chain tag P exprs =
      enqueue-Pending nft laws chain P (Stands tag) (add_rule chain tag exprs) λ n rules h.
        rw (text_eq_refl chain) (
          ground (
            arith,
            text_eq_refl tag,
            tags-append rules
                (record { handle = n; chain = chain; user_data = tag; exprs = exprs } ∷ []),
            contains-append tag (tags rules) (tag ∷ []),
          ))

  pub Pending-map :
      (chain : Text) (P Q : List NftRule → Type 0) (s : Conn nft)
      → ((rules : List NftRule) → P rules → Q rules)
      → Pending nft laws chain P s
      → Pending nft laws chain Q s
  Pending-map chain P Q s f (rules, e, h) = (rules, e, f _ h)

  module _ (parse_ip : Text → Option Addr) where
    built_same :
        (r : Result ExprError (List Expr)) (s u : Conn nft) (exprs : List Expr)
        → built nft parse_ip r s ≡ (ok exprs, u)
        → s ≡ u
    unfolding built
    built_same (ok x) s u exprs q = same_state q
    built_same (err e) s u exprs q = absurd (cc q)

    -- What is there already, or is built and added, stands.
    pub add_unless-Stands :
        (chain tag : Text) (have : List Text) (exprs : List Expr) (s t : Conn nft) (a : Unit {0})
        → Pending nft laws chain (Have have) s
        → add_unless nft parse_ip have chain tag exprs s ≡ (ok a, t)
        → Pending nft laws chain (Stands tag) t
    unfolding add_unless
    add_unless-Stands chain tag have exprs s t a p q = elim (Bool-cases (contains tag have)) [
      | inl y ↦
          subst (Pending nft laws chain (Stands tag)) (same_state (rw y at q))
            (Pending-map chain (Have have) (Stands tag) s (λ rules h. h tag y) p)
      | inr n ↦ add-Stands chain tag (Have have) exprs s t a p (rw n at q)
    ]

    pub built_then-Stands :
        (chain tag : Text) (have : List Text) (r : Result ExprError (List Expr)) (s t : Conn nft)
        (a : Unit {0})
        → Pending nft laws chain (Have have) s
        → (if contains tag have
              then return tt
              else and_then
                  (built nft parse_ip r)
                  (λ exprs. enqueue nft (add_rule chain tag exprs)))
            s
          ≡ (ok a, t)
        → Pending nft laws chain (Stands tag) t
    built_then-Stands chain tag have r s t a p q = elim (Bool-cases (contains tag have)) [
      | inl y ↦
          subst (Pending nft laws chain (Stands tag)) (same_state (rw y at q))
            (Pending-map chain (Have have) (Stands tag) s (λ rules h. h tag y) p)
      | inr n ↦
          let (exprs, u, e1, e2) = and_then-eq-ok (built nft parse_ip r) _ s (rw n at q) in
          add-Stands chain tag (Have have) exprs u t a
            (subst (Pending nft laws chain (Have have)) (built_same r s u exprs e1) p) e2
    ]
