-- ===== src/Provisiond/Nft.antt =====
-- The connection to nftables, as internal/provisiond/nft.go uses it: commands are queued, a flush
-- sends them as one transaction, and reading sees what was flushed. The kernel is a parameter.
use microbe.Base.{
  ℕ, Bool, true, false, Option, none, some, List, [], ◌∷◌, ◌++◌, Text, codes, text_eq, has_prefix,
  ◌==◌, if◌then◌else◌, length, Result, ok, err, Action, return, and_then,
}
use microbe.Provisiond.Expr.{Expr, ExprError, established_accept_exprs}

-- `nftables.Rule`; the kernel chooses the handle.
pub record NftRule : Type 0 where
  pub handle : ℕ
  pub chain : Text
  pub user_data : Text
  pub exprs : List Expr

pub data ChainKind : Type 0 where
  nat_prerouting : ChainKind  -- type nat, hook prerouting, priority NATDest, no policy
  filter_forward_drop : ChainKind  -- type filter, hook forward, priority filter, policy drop

pub data Command : Type 0 where
  add_table : Text → Command
  add_chain : Text → ChainKind → Command
  add_rule : (chain user_data : Text) → List Expr → Command
  del_rule : NftRule → Command

-- The `fmt.Errorf` prefixes of the file.
pub data NftError : Type 0 where
  no_connection : Text → NftError
  flush_nat_setup : Text → NftError
  flush_forward_setup : Text → NftError
  flush_established : Text → NftError
  flush_failed : Text → NftError
  list_rules : (chain : Text) → Text → NftError
  delete_rule : (tag : Text) → Text → NftError
  bad_exprs : ExprError → NftError

-- What the code calls of the nftables package, on a host in some state.
pub record Nftables (Host : Type 0) : Type 0 where
  pub connect : Host → Option Text  -- the error of `nftables.New`
  pub get_rules : Host → Text → Result Text (List NftRule)
  pub list_chain : Host → Text → Bool  -- whether `ListChain` finds the chain
  pub del_error : NftRule → Option Text  -- the error of `DelRule`
  pub commit : Host → List Command → Result Text Host
  pub ct_mask : List ℕ

abbrev pub nft_table : Text
nft_table = codes "microbe"

abbrev pub prerouting : Text
prerouting = codes "prerouting"

abbrev pub forward : Text
forward = codes "forward"

abbrev pub user_data_prefix : Text
user_data_prefix = codes "microbe:"

abbrev pub fwd_svc_prefix : Text
fwd_svc_prefix = codes "microbe-fwd-svc:"

abbrev pub port_fwd_prefix : Text
port_fwd_prefix = codes "microbe-port:"

abbrev pub established_fingerprint : Text
established_fingerprint = codes "microbe-fwd-established"

-- `userDataFingerprint`
unfoldable pub user_data_fingerprint : Text → Text → Text
user_data_fingerprint ud prefix = if has_prefix ud prefix then ud else []

-- `fingerprintSet`
unfoldable pub fingerprint_set : List NftRule → Text → List Text
unfolding user_data_fingerprint
fingerprint_set [] prefix = []
fingerprint_set (rule ∷ rules) prefix =
    let tag = user_data_fingerprint rule.user_data prefix in
    let rest = fingerprint_set rules prefix in if length tag == 0 then rest else tag ∷ rest

module _ {Host : Type 0} (nft : Nftables Host) where
  -- The host, and the commands that wait for a flush.
  abbrev pub Conn : Type 0
  Conn = Host × List Command

  unfoldable pub new_conn : Action Conn NftError (Unit {0})
  new_conn (host, queue) = elim (nft.connect host) [
    | none ↦ (ok tt, (host, []))
    | some e ↦ (err (no_connection e), (host, queue))
  ]

  unfoldable pub enqueue : Command → Action Conn NftError (Unit {0})
  enqueue cmd (host, queue) = (ok tt, (host, queue ++ cmd ∷ []))

  unfoldable pub flush_with : (Text → NftError) → Action Conn NftError (Unit {0})
  flush_with wrap (host, queue) = elim (nft.commit host queue) [
    | ok host' ↦ (ok tt, (host', []))
    | err e ↦ (err (wrap e), (host, []))
  ]

  unfoldable pub get_rules_of : Text → Action Conn NftError (List NftRule)
  get_rules_of chain (host, queue) = elim (nft.get_rules host chain) [
    | ok rules ↦ (ok rules, (host, queue))
    | err e ↦ (err (list_rules chain e), (host, queue))
  ]

  unfoldable pub delete : Text → NftRule → Action Conn NftError (Unit {0})
  unfolding enqueue
  delete tag rule s = elim (nft.del_error rule) [
    | none ↦ enqueue (del_rule rule) s
    | some e ↦ (err (delete_rule tag e), s)
  ]

  unfoldable pub ensure_nat_chain : Action Conn NftError (Unit {0})
  ensure_nat_chain =
      and_then (enqueue (add_table nft_table)) λ _.
        and_then (enqueue (add_chain prerouting nat_prerouting)) λ _. flush_with flush_nat_setup

  abbrev has_established : List NftRule → Bool
  has_established [] = false
  has_established (rule ∷ rules) =
      let rest = has_established rules in
      if text_eq rule.user_data established_fingerprint then true else rest

  unfoldable pub add_established : Bool → Action Conn NftError (Unit {0})
  add_established true = return tt
  add_established false =
      and_then
        (enqueue (add_rule forward established_fingerprint (established_accept_exprs nft.ct_mask)))
        λ _. flush_with flush_established

  unfoldable pub ensure_forward_chain : Action Conn NftError (Unit {0})
  ensure_forward_chain = and_then (enqueue (add_table nft_table)) λ _.
      and_then (enqueue (add_chain forward filter_forward_drop)) λ _.
        and_then (flush_with flush_forward_setup) λ _.
          and_then (get_rules_of forward) λ existing. add_established (has_established existing)
