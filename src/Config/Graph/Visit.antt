-- ===== src/Config/Graph/Visit.antt =====
-- What one visit of the depth-first search does to the colours.
use mathlib.Core.WellFounded.{Acc}
use microbe.Base.{
  ℕ, zero, suc, ◌≡◌, refl, inl, inr, true, Bool-cases, List, [], ◌∷◌, ◌++◌, Text, text_eq,
  text_eq_iff, All, contains, Map, insert, lookup-insert, if◌then◌else◌, Result, ok, >>=-eq-ok,
  ok_inj, subst, arith,
}
use microbe.Config.Schema.{Service}
use microbe.Config.Errors.{ConfigError}
use microbe.Config.Graph.{
  Color, white, grey, black, Colors, color_of, deps_of, visit_dep, visit_deps, visit, DependsOn,
}

pub color_of-insert :
    (name j : Text) (c : Color) (colors : Colors)
    → color_of (insert name c colors) j ≡ (if text_eq name j then c else color_of colors j)
color_of-insert name j c colors = ground (arith, lookup-insert name j c colors)

module _ (services : Map Service) where
  -- Every black service is one from which no dependency chain goes on for ever.
  abbrev pub Done : Colors → Type 0
  Done colors = (n : Text) → color_of colors n ≡ black → Acc (DependsOn services) n

  -- From `a` to `b` a visit only blackens what was white.
  pub record Grows (a b : Colors) : Type 0 where
    pub blacks : (n : Text) → color_of a n ≡ black → color_of b n ≡ black
    pub greys : (n : Text) → color_of b n ≡ grey → color_of a n ≡ grey
    pub whites : (n : Text) → color_of b n ≡ white → color_of a n ≡ white
    pub done : Done a → Done b

  pub Grows-refl : (a : Colors) → Grows a a
  Grows-refl a = record { blacks = λ n h. h; greys = λ n h. h; whites = λ n h. h; done = λ d. d }

  pub Grows-trans : {a b c : Colors} → Grows a b → Grows b c → Grows a c
  Grows-trans p q = record {
    blacks = λ n h. q.blacks n (p.blacks n h);
    greys = λ n h. p.greys n (q.greys n h);
    whites = λ n h. p.whites n (q.whites n h);
    done = λ d. q.done (p.done d);
  }

  -- What a successful visit of a white service promises.
  abbrev pub Visits : (Text → List Text → Colors → Result ConfigError Colors) → Type 0
  Visits go =
      (name : Text) (path : List Text) (a b : Colors)
      → color_of a name ≡ white
      → go name path a ≡ ok b
      → Grows a b × (color_of b name ≡ black)

  module _ (go : Text → List Text → Colors → Result ConfigError Colors) (spec : Visits go) where
    pub visit_dep-Grows :
        (name : Text) (path : List Text) (dep : Text) (a b : Colors) (c : Color)
        → color_of a dep ≡ c
        → visit_dep go name path dep a c ≡ ok b
        → Grows a b × (color_of b dep ≡ black)
    unfolding visit_dep
    visit_dep-Grows name path dep a b white e h = spec dep (path ++ name ∷ []) a b e h
    visit_dep-Grows name path dep a b grey e h = cc
    visit_dep-Grows name path dep a b black e h =
        let q : a ≡ b = ok_inj h in
        (subst (λ t. Grows a t) q (Grows-refl a), subst (λ t. color_of t dep ≡ black) q e)

    visit_deps-Grows :
        (name : Text) (path deps : List Text) (a b : Colors)
        → visit_deps go name path deps a ≡ ok b
        → Grows a b × All (λ d. color_of b d ≡ black) deps
    unfolding visit_deps
    visit_deps-Grows name path [] a b h = (subst (λ t. Grows a t) (ok_inj h) (Grows-refl a), tt)
    visit_deps-Grows name path (dep ∷ deps) a b h =
        let (m, e, g) = >>=-eq-ok (visit_dep go name path dep a (color_of a dep)) _ h in
        let (first, done) = visit_dep-Grows name path dep a m (color_of a dep) refl e in
        let (rest, all) = visit_deps-Grows name path deps m b g in
        (Grows-trans first rest, (rest.blacks dep done, all))

  -- The colour of a name, where one service was given a colour.
  pub black_of_All :
      (b : Colors) (d : Text) (deps : List Text)
      → All (λ e. color_of b e ≡ black) deps
      → contains d deps ≡ true
      → color_of b d ≡ black
  black_of_All b d [] all h = cc
  black_of_All b d (x ∷ deps) all h =
      ground (arith, text_eq_iff d x, all.0, black_of_All b d deps all.1)

  grey-Done :
      (name : Text) (a : Colors) → color_of a name ≡ white → Done a → Done (insert name grey a)
  grey-Done name a w d n h = d n (ground (arith, text_eq_iff name n, color_of-insert name n grey a))

  visit-Grows :
      (name : Text) (a c : Colors)
      → color_of a name ≡ white
      → Grows (insert name grey a) c
      → All (λ d. color_of c d ≡ black) (deps_of services name)
      → Grows a (insert name black c)
  visit-Grows name a c w g all = record {
    blacks = λ n h. ground (
      arith,
      text_eq_iff name n,
      color_of-insert name n grey a,
      color_of-insert name n black c,
      g.blacks n,
    );
    greys = λ n h. ground (
      arith,
      text_eq_iff name n,
      color_of-insert name n grey a,
      color_of-insert name n black c,
      g.greys n,
    );
    whites = λ n h. ground (
      arith,
      text_eq_iff name n,
      color_of-insert name n grey a,
      color_of-insert name n black c,
      g.whites n,
    );
    done = λ d n h. elim (Bool-cases (text_eq name n)) [
      | inl y ↦
          subst (λ t. Acc (DependsOn services) t) ((text_eq_iff name n).0 y)
            (Acc.intro name (λ m dep.
              g.done (grey-Done name a w d) m (black_of_All c m (deps_of services name) all dep)))
      | inr y ↦ g.done (grey-Done name a w d) n (ground (arith, y, color_of-insert name n black c))
    ];
  }

  pub visit-Visits : (fuel : ℕ) → Visits (visit services fuel)
  unfolding visit
  visit-Visits zero name path a b w h = cc
  visit-Visits (suc fuel) name path a b w h =
      let (c, e, g) =
        >>=-eq-ok
          (visit_deps (visit services fuel) name path (deps_of services name) (insert name grey a))
          _ h in
      let (grown, all) =
        visit_deps-Grows (visit services fuel) (visit-Visits fuel) name path (deps_of services name)
          (insert name grey a) c e in
      let q : insert name black c ≡ b = ok_inj g in
      (
        subst (λ t. Grows a t) q (visit-Grows name a c w grown all),
        subst (λ t. color_of t name ≡ black) q
            (ground (arith, color_of-insert name name black c, text_eq_iff name name)),
      )
