-- ===== src/Provisiond/Within.antt =====
-- The rules of one tag in a list of firewall rules, and the tags of ports and rules.
use microbe.Base.{
  ℕ, ◌≡◌, refl, Bool, true, false, not, ◌||◌, ◌&&◌, List, [], ◌∷◌, ◌++◌, map, Text, text_eq,
  text_eq_refl, has_prefix, All, All-map, contains, ◌==◌, ok, arith,
}
use microbe.Provisiond.Specs.{PortSpec, RuleSpec}
use microbe.Provisiond.Nft.{NftRule, Nftables, user_data_prefix, fwd_svc_prefix, port_fwd_prefix}
use microbe.Provisiond.Fingerprints.{fingerprint, port_fwd_fingerprint, rule_fingerprint}
use microbe.Provisiond.Firewall.{tags, without}

-- The list has a rule of this handle and tag.
unfoldable pub claimed : Text → ℕ → List NftRule → Bool
claimed tag n [] = false
claimed tag n (x ∷ xs) = (x.handle == n && text_eq tag x.user_data) || claimed tag n xs

-- Each rule of the tag is one of the list.
unfoldable pub within : Text → List NftRule → List NftRule → Bool
within tag xs [] = true
within tag xs (r ∷ rs) =
    (not (text_eq tag r.user_data) || claimed tag r.handle xs) && within tag xs rs

pub within_cons :
    (tag : Text) (x : NftRule) (xs rs : List NftRule)
    → within tag xs rs ≡ true
    → within tag (x ∷ xs) rs ≡ true
unfolding within claimed
within_cons tag x xs [] h = refl
within_cons tag x xs (r ∷ rs) h = ground (arith, within_cons tag x xs rs, h)

pub within_self : (tag : Text) (rs : List NftRule) → within tag rs rs ≡ true
unfolding within claimed
within_self tag [] = refl
within_self tag (r ∷ rs) = ground (arith, within_cons tag r rs rs (within_self tag rs))

pub within_skip :
    (tag : Text) (x : NftRule) (xs rs : List NftRule)
    → text_eq tag x.user_data ≡ false
    → within tag (x ∷ xs) rs ≡ true
    → within tag xs rs ≡ true
unfolding within claimed
within_skip tag x xs [] n h = refl
within_skip tag x xs (r ∷ rs) n h = ground (arith, within_skip tag x xs rs, n, h)

pub within-without :
    (tag : Text) (x : NftRule) (xs rs : List NftRule)
    → within tag (x ∷ xs) rs ≡ true
    → within tag xs (without x.handle rs) ≡ true
unfolding within claimed
within-without tag x xs [] h = refl
within-without tag x xs (r ∷ rs) h = ground (arith, within-without tag x xs rs, h)

pub within_none :
    (tag : Text) (rs : List NftRule) → within tag [] rs ≡ true → contains tag (tags rs) ≡ false
unfolding within claimed
within_none tag [] h = refl
within_none tag (r ∷ rs) h = ground (arith, within_none tag rs, h)

abbrev pub Gone : Text → List NftRule → Type 0
Gone tag rules = contains tag (tags rules) ≡ false

-- The chain holds no rule of this tag.
abbrev pub Cleared : {Host : Type 0} → Nftables Host → Host → Text → Text → Type 0
Cleared nft host chain tag =
    (rules : List NftRule) × (nft.get_rules host chain ≡ ok rules)
    × (contains tag (tags rules) ≡ false)

pub has_prefix-append : (p s : Text) → has_prefix (p ++ s) p ≡ true
unfolding has_prefix
has_prefix-append [] s = refl
has_prefix-append (c ∷ p) s = ground (arith, has_prefix-append p s)

pub rule_tagged : (r : RuleSpec) → has_prefix (rule_fingerprint r) fwd_svc_prefix ≡ true
unfolding rule_fingerprint
rule_tagged r = has_prefix-append fwd_svc_prefix _

pub port_tagged : (p : PortSpec) → has_prefix (fingerprint p) user_data_prefix ≡ true
unfolding fingerprint
port_tagged p = has_prefix-append user_data_prefix _

pub port_fwd_tagged : (p : PortSpec) → has_prefix (port_fwd_fingerprint p) port_fwd_prefix ≡ true
unfolding port_fwd_fingerprint
port_fwd_tagged p = has_prefix-append port_fwd_prefix _

pub contains_later :
    {A : Type 0} (f : A → Text) (x : A) (xs ys : List A)
    → All (λ y. contains (f y) (map f xs) ≡ true) ys
    → All (λ y. contains (f y) (map f (x ∷ xs)) ≡ true) ys
contains_later f x xs ys = All-map ys λ y h. ground (arith, h)

pub contains-map :
    {A : Type 0} (f : A → Text) (xs : List A) → All (λ x. contains (f x) (map f xs) ≡ true) xs
contains-map f [] = tt
contains-map f (x ∷ xs) =
    (ground (arith, text_eq_refl (f x)), contains_later f x xs xs (contains-map f xs))

pub All-both :
    {A : Type 0} (P Q : A → Type 0) (xs : List A) → All P xs → All Q xs → All (λ x. P x × Q x) xs
All-both P Q [] p q = tt
All-both P Q (x ∷ xs) p q = ((p.0, q.0), All-both P Q xs p.1 q.1)
