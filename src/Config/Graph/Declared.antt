-- ===== src/Config/Graph/Declared.antt =====
-- What `validateDependsOn` accepts: dependencies that are declared, and no cycle of them.
use microbe.Base.{
  ◌≡◌, ◌≢◌, refl, sym, inl, inr, true, false, Option, none, some, Text, text_eq_iff, All,
  All-contains, contains, Map, lookup, has, has-contains, All-lookup, ok, >>=-eq-ok, each_result,
  each_result-ok, ◌∙◌, arith,
}
use microbe.Config.Schema.{Service}
use microbe.Config.Graph.{deps_of, check_dep, validate_depends_on, detect_cycle, DependsOn, Chain}
use microbe.Config.Graph.Cycles.{AllDeclared}
use microbe.Config.Graph.Decides.{detect_cycle_decides}

module _ (services : Map Service) where
  check_dep-ok : (n d : Text) → check_dep services n d ≡ ok tt → (d ≢ n) × (has d services ≡ true)
  unfolding check_dep
  check_dep-ok n d h = (λ e. ground (arith, h, e, text_eq_iff d n), ground arith)

  abbrev DepsPass : Text → Service → Type 0
  DepsPass name svc = each_result (check_dep services name) svc.depends_on ≡ ok tt

  no_deps : (n d : Text) → lookup n services ≡ none → contains d (deps_of services n) ≡ false
  unfolding deps_of
  no_deps n d q = rw q refl

  its_deps :
      (n : Text) (svc : Service)
      → lookup n services ≡ some svc
      → deps_of services n ≡ svc.depends_on
  unfolding deps_of
  its_deps n svc q = rw q refl

  declared_of_pass :
      All (λ (e : Text × Service). DepsPass e.0 e.1) services
      → (n d : Text) → DependsOn services d n
      → (o : Option Service) → lookup n services ≡ o
      → has d services ≡ true
  declared_of_pass all n d h none q = absurd (cc (no_deps n d q, h))
  declared_of_pass all n d h (some svc) q =
      (check_dep-ok n d (
        All-contains (λ x. check_dep services n x ≡ ok tt) d svc.depends_on
          (each_result-ok (check_dep services n) svc.depends_on
            (All-lookup DepsPass n svc services all q))
          (rw (its_deps n svc q) at h))).1

  -- validateDependsOn returns nil only if every dependency is a declared service other than the
  -- dependant, and no service depends on itself through a chain of dependencies.
  pub validate_depends_on-acyclic :
      validate_depends_on services ≡ ok tt
      → AllDeclared services × ((n : Text) → ¬ (Chain services n n))
  unfolding validate_depends_on
  validate_depends_on-acyclic h =
      let (u, e, g) =
        >>=-eq-ok
          (each_result
            (λ (entry : Text × Service).
              each_result (check_dep services entry.0) entry.1.depends_on)
            services)
          (λ _. detect_cycle services) h in
      let all =
        each_result-ok
          (λ (entry : Text × Service). each_result (check_dep services entry.0) entry.1.depends_on)
          services e in
      let declared : AllDeclared services = λ n d r.
        sym (has-contains d services) ∙ declared_of_pass all n d r (lookup n services) refl in
      (
        declared,
        elim (detect_cycle_decides services declared) [
          | inl a ↦ a.1
          | inr b ↦ absurd (cc (b.2, g))
        ],
      )
