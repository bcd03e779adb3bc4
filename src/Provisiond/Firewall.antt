-- ===== src/Provisiond/Firewall.antt =====
-- What the kernel's firewall is relied on to do with a transaction, and what the steps of a
-- connection keep of the rules that are to stand once the queue is flushed.
use microbe.Base.{
  ℕ, suc, ◌≡◌, refl, sym, ap, subst, inl, inr, List, [], ◌∷◌, ◌++◌, Text, text_eq, All,
  if◌then◌else◌, ◌==◌, ok, Result-cases, ok_inj, Preserves, same_state,
}
use microbe.Provisiond.Nft.{
  NftRule, Command, add_table, add_chain, add_rule, del_rule, NftError, Nftables, Conn, enqueue,
  flush_with, get_rules_of,
}

abbrev pub tags : List NftRule → List Text
tags [] = []
tags (rule ∷ rules) = rule.user_data ∷ tags rules

-- The rules of another handle.
abbrev pub without : ℕ → List NftRule → List NftRule
without n [] = []
without n (rule ∷ rules) =
    let rest = without n rules in if rule.handle == n then rest else rule ∷ rest

-- What a command does to the rules of a chain; n is the handle of a rule that it adds.
unfoldable pub run_command : ℕ → Text → Command → List NftRule → List NftRule
run_command n chain (add_table name) rules = rules
run_command n chain (add_chain name kind) rules = rules
run_command n chain (add_rule c tag exprs) rules =
    if text_eq c chain
    then rules ++ record { handle = n; chain = c; user_data = tag; exprs = exprs } ∷ []
    else rules
run_command n chain (del_rule rule) rules =
    if text_eq rule.chain chain then without rule.handle rules else rules

unfoldable pub run_batch : (ℕ → ℕ) → Text → List Command → List NftRule → List NftRule
unfolding run_command
run_batch handles chain [] rules = rules
run_batch handles chain (cmd ∷ cmds) rules =
    run_batch (λ i. handles (suc i)) chain cmds (run_command (handles 0) chain cmd rules)

-- What nftables documents: a committed transaction runs its commands in order on each chain that
-- there is, and listing a chain gives rules of that chain.
pub record FirewallLaws {Host : Type 0} (nft : Nftables Host) : Type 0 where
  pub handle_of : Host → ℕ → ℕ
  pub commit_rules :
      (host host' : Host) (queue : List Command) (chain : Text) (rules : List NftRule)
      → nft.commit host queue ≡ ok host'
      → nft.get_rules host chain ≡ ok rules
      → nft.get_rules host' chain ≡ ok (run_batch (handle_of host) chain queue rules)
  pub chain_of :
      (host : Host) (chain : Text) (rules : List NftRule)
      → nft.get_rules host chain ≡ ok rules
      → All (λ (r : NftRule). r.chain ≡ chain) rules

last_handle : (ℕ → ℕ) → List Command → ℕ
last_handle handles [] = handles 0
last_handle handles (cmd ∷ cmds) = last_handle (λ i. handles (suc i)) cmds

pub run_batch-snoc :
    (handles : ℕ → ℕ) (chain : Text) (queue : List Command) (cmd : Command) (rules : List NftRule)
    → (n : ℕ) × (run_batch handles chain (queue ++ cmd ∷ []) rules
        ≡ run_command n chain cmd (run_batch handles chain queue rules))
unfolding run_batch
run_batch-snoc handles chain [] cmd rules = (handles 0, refl)
run_batch-snoc handles chain (c ∷ cmds) cmd rules =
    run_batch-snoc (λ i. handles (suc i)) chain cmds cmd (run_command (handles 0) chain c rules)

pub tags-append : (xs ys : List NftRule) → tags (xs ++ ys) ≡ tags xs ++ tags ys
tags-append [] ys = refl
tags-append (x ∷ xs) ys = ap (λ t. x.user_data ∷ t) (tags-append xs ys)

module _ {Host : Type 0} (nft : Nftables Host) (laws : FirewallLaws nft) where
  -- A property of a chain's rules that holds once the queue is flushed.
  abbrev pub Pending : Text → (List NftRule → Type 0) → Conn nft → Type 0
  Pending chain P (host, queue) =
      (rules : List NftRule) × (nft.get_rules host chain ≡ ok rules)
      × P (run_batch (laws.handle_of host) chain queue rules)

  -- The rules that stand now.
  pub Pending-now :
      (chain : Text) (P : List NftRule → Type 0) (host : Host)
      → Pending chain P (host, [])
      → (rules : List NftRule) × (nft.get_rules host chain ≡ ok rules) × P rules
  unfolding run_batch
  Pending-now chain P host h = h

  pub enqueue-Preserves :
      (chain : Text) (P : List NftRule → Type 0) (cmd : Command)
      → ((n : ℕ) (rules : List NftRule) → P rules → P (run_command n chain cmd rules))
      → Preserves (Pending chain P) (enqueue nft cmd)
  unfolding enqueue
  enqueue-Preserves chain P cmd keep (host, queue) t a (rules, e, h) q =
      let (n, f) = run_batch-snoc (laws.handle_of host) chain queue cmd rules in
      subst (Pending chain P) (same_state q) (rules, e, subst P (sym f) (keep n _ h))

  -- What is queued stands once it was flushed.
  pub enqueue-Pending :
      (chain : Text) (P Q : List NftRule → Type 0) (cmd : Command)
      → ((n : ℕ) (rules : List NftRule) → P rules → Q (run_command n chain cmd rules))
      → (s t : Conn nft) (a : Unit {0}) → Pending chain P s
      → enqueue nft cmd s ≡ (ok a, t)
      → Pending chain Q t
  unfolding enqueue
  enqueue-Pending chain P Q cmd keep (host, queue) t a (rules, e, h) q =
      let (n, f) = run_batch-snoc (laws.handle_of host) chain queue cmd rules in
      subst (Pending chain Q) (same_state q) (rules, e, subst Q (sym f) (keep n _ h))

  flushed :
      (wrap : Text → NftError) (host : Host) (queue : List Command) (t : Conn nft) (a : Unit {0})
      → flush_with nft wrap (host, queue) ≡ (ok a, t)
      → (host' : Host) × (nft.commit host queue ≡ ok host') × (t ≡ (host', []))
  unfolding flush_with
  flushed wrap host queue t a h = elim (Result-cases (nft.commit host queue)) [
    | inl (host', e) ↦ (host', e, sym (same_state (rw (e, flush_with) at h)))
    | inr (x, e) ↦ absurd (cc (rw (e, flush_with) at h))
  ]

  pub flush_with-Preserves :
      (chain : Text) (P : List NftRule → Type 0) (wrap : Text → NftError)
      → Preserves (Pending chain P) (flush_with nft wrap)
  unfolding run_batch
  flush_with-Preserves chain P wrap (host, queue) t a (rules, e, h) q =
      let (host', c, r) = flushed wrap host queue t a q in
      subst (Pending chain P) (sym r) (_, laws.commit_rules host host' queue chain rules c e, h)

  -- Behind a flush that succeeds nothing waits.
  pub flush_with_done :
      (chain : Text) (P : List NftRule → Type 0) (wrap : Text → NftError) (s : Conn nft)
      (host' : Host) (queue' : List Command) (a : Unit {0})
      → Pending chain P s
      → flush_with nft wrap s ≡ (ok a, (host', queue'))
      → (rules : List NftRule) × (nft.get_rules host' chain ≡ ok rules) × P rules
  flush_with_done chain P wrap (host, queue) host' queue' a h q =
      let (host'', c, r) = flushed wrap host queue (host', queue') a q in
      Pending-now chain P host' (
        subst (λ (x : List Command). Pending chain P (host', x)) (ap (λ (x : Conn nft). x.1) r)
          (flush_with-Preserves chain P wrap (host, queue) (host', queue') a h q))

  -- Reading changes nothing, and tells what stands.
  pub read_rules :
      (chain : Text) (s t : Conn nft) (rules : List NftRule)
      → get_rules_of nft chain s ≡ (ok rules, t)
      → (s ≡ t) × (nft.get_rules s.0 chain ≡ ok rules)
  unfolding get_rules_of
  read_rules chain (host, queue) t rules h = elim (Result-cases (nft.get_rules host chain)) [
    | inl (rs, e) ↦ (
      same_state (rw (e, get_rules_of) at h),
      subst (λ r. nft.get_rules host chain ≡ ok r)
          (ok_inj (ap (λ x. x.0) (rw (e, get_rules_of) at h))) e,
    )
    | inr (x, e) ↦ absurd (cc (rw (e, get_rules_of) at h))
  ]
