-- ===== src/Config/Graph/Cycles.antt =====
-- A failing visit has met a real cycle; acyclic graphs and the number of white services.
use mathlib.Core.WellFounded.{Acc}
use microbe.Base.{
  ℕ, suc, ◌≤◌, ◌<◌, ◌≡◌, refl, sym, ◌⊎◌, inl, inr, true, List, [], ◌∷◌, ◌++◌, Text, text_eq_iff,
  All, contains, Map, insert, keys, Result, err, Result-cases, subst, arith,
}
use microbe.Config.Schema.{Service}
use microbe.Config.Errors.{ConfigError, depends_on_cycle}
use microbe.Config.Graph.{
  Color, white, grey, black, Colors, color_of, visit_dep, visit_deps, DependsOn, Chain, direct, via,
}
use microbe.Config.Graph.Visit.{color_of-insert, Grows, Visits, visit_dep-Grows}

module _ (services : Map Service) where
  -- The first dependency of a chain.
  Chain-first :
      {n d : Text}
      → Chain services n d
      → (m : Text) × DependsOn services m n × ((m ≡ d) ⊎ Chain services m d)
  Chain-first {d = d} (direct h) = (d, h, inl refl)
  Chain-first {d = d} (via {m = m} c h) =
      let (k, s, r) = Chain-first c in (k, s, inr (chain_next k m d r h))
    where
      chain_next :
          (k m d : Text)
          → (k ≡ m) ⊎ Chain services k m
          → DependsOn services d m
          → Chain services k d
      chain_next k m d (inl e) h = direct (subst (λ t. DependsOn services d t) (sym e) h)
      chain_next k m d (inr c) h = via c h

  pub no-Chain : (n : Text) → Acc (DependsOn services) n → Chain services n n → ⊥
  no-Chain n (Acc.intro _ smaller) c =
      let (m, s, r) = Chain-first c in no-Chain m (smaller m s) (turn m s r)
    where
      turn : (m : Text) → DependsOn services m n → (m ≡ n) ⊎ Chain services m n → Chain services m m
      turn m s (inl e) = subst (λ t. Chain services t t) (sym e) c
      turn m s (inr d) = via d s

  -- How many of the names are white.
  unfoldable pub white_count : Colors → List Text → ℕ
  white_count a [] = 0
  white_count a (k ∷ ks) =
      let rest = white_count a ks in elim (color_of a k) [ white ↦ suc rest | _ ↦ rest ]

  pub white_count-le :
      (a b : Colors) (ks : List Text)
      → ((n : Text) → color_of b n ≡ white → color_of a n ≡ white)
      → white_count b ks ≤ white_count a ks
  unfolding white_count
  white_count-le a b [] h = omega arith
  white_count-le a b (k ∷ ks) h = ground (arith, h k, white_count-le a b ks h)

  white_of_grey :
      (a : Colors) (name n : Text) → color_of (insert name grey a) n ≡ white → color_of a n ≡ white
  white_of_grey a name n h = ground (arith, color_of-insert name n grey a)

  pub white_count-lt :
      (a : Colors) (name : Text) (ks : List Text)
      → color_of a name ≡ white
      → contains name ks ≡ true
      → white_count (insert name grey a) ks < white_count a ks
  unfolding white_count
  white_count-lt a name [] w h = cc
  white_count-lt a name (k ∷ ks) w h = ground (
    arith,
    text_eq_iff name k,
    color_of-insert name k grey a,
    white_count-le a (insert name grey a) ks (white_of_grey a name),
    white_count-lt a name ks w,
  )

  abbrev pub HasCycle : ConfigError → Type 0
  HasCycle e =
      ((path : List Text) × (e ≡ depends_on_cycle path)) × ((n : Text) × Chain services n n)

  -- Every name in a dependsOn is declared: `validateDependsOn` checks it before the search.
  abbrev pub AllDeclared : Type 0
  AllDeclared = (n d : Text) → DependsOn services d n → contains d (keys services) ≡ true

  -- What a failing visit promises: a real cycle, if the fuel is as large as the number of whites and
  -- every grey service leads to the one that is visited.
  abbrev pub Fails : (Text → List Text → Colors → Result ConfigError Colors) → ℕ → Type 0
  Fails go k =
      (name : Text) (path : List Text) (a : Colors) (e : ConfigError)
      → color_of a name ≡ white
      → contains name (keys services) ≡ true
      → white_count a (keys services) ≤ k
      → ((g : Text) → color_of a g ≡ grey → Chain services g name)
      → go name path a ≡ err e
      → HasCycle e

  module _ (declared : AllDeclared) (go : Text → List Text → Colors → Result ConfigError Colors)
      (spec : Visits services go) (k : ℕ) (fails : Fails go k) (name : Text)
      (path : List Text) where
    Chain-to :
        (d g : Text)
        → DependsOn services d name
        → (g ≡ name) ⊎ Chain services g name
        → Chain services g d
    Chain-to d g s (inl e) = direct (subst (λ t. DependsOn services d t) (sym e) s)
    Chain-to d g s (inr c) = via c s

    visit_dep-Fails :
        (dep : Text) (a : Colors) (e : ConfigError) (c : Color)
        → color_of a dep ≡ c
        → DependsOn services dep name
        → white_count a (keys services) ≤ k
        → ((g : Text) → color_of a g ≡ grey → (g ≡ name) ⊎ Chain services g name)
        → visit_dep go name path dep a c ≡ err e
        → HasCycle e
    unfolding visit_dep
    visit_dep-Fails dep a e white q s w greys h =
        fails dep (path ++ name ∷ []) a e q (declared name dep s) w
          (λ g r. Chain-to dep g s (greys g r)) h
    visit_dep-Fails dep a e grey q s w greys h =
        ((path ++ name ∷ [], cc h), (dep, Chain-to dep dep s (greys dep q)))
    visit_dep-Fails dep a e black q s w greys h = cc

    pub visit_deps-Fails :
        (deps : List Text) (a : Colors) (e : ConfigError)
        → All (λ d. DependsOn services d name) deps
        → white_count a (keys services) ≤ k
        → ((g : Text) → color_of a g ≡ grey → (g ≡ name) ⊎ Chain services g name)
        → visit_deps go name path deps a ≡ err e
        → HasCycle e
    unfolding visit_deps
    visit_deps-Fails [] a e s w greys h = cc
    visit_deps-Fails (dep ∷ deps) a e s w greys h =
        elim (Result-cases (visit_dep go name path dep a (color_of a dep))) [
          | inl (m, q) ↦
              let grown : Grows services a m =
                (visit_dep-Grows services go spec name path dep a m (color_of a dep) refl q).0 in
              visit_deps-Fails deps m e s.1
                (omega (arith, white_count-le a m (keys services) grown.whites))
                (λ g r. greys g (grown.greys g r)) (rw q at h)
          | inr (x, q) ↦
              visit_dep-Fails dep a e (color_of a dep) refl s.0 w greys (rw q (rw q at h))
        ]
