-- ===== src/Commands/Ordered.antt =====
-- The loop over the services of `upRun` of internal/cmd/up.go: which it starts, and where it ends.
use microbe.Base.{
  ◌≡◌, refl, sym, ap, subst, ◌∙◌, contains, All, Bool, true, false, Option-cases, Result-cases, inl,
  inr, ℤ, pos, int_eq, ok, err, ok_inj, Result, Option, none, List, [], ◌∷◌, ◌++◌, Text, Map,
  lookup, if◌then◌else◌, return, and_then-eq-ok, same_state, and_then-Keeps, if-Keeps,
}
use microbe.Config.Schema.{Service, Compose}
use microbe.Lifecycle.Stack.{Stack}
use microbe.Lifecycle.Specs.{ports_in}
use microbe.Lifecycle.Order.{start_order}
use microbe.Lifecycle.Steps.{DepsFirst}
use microbe.Lifecycle.Topological.{start_order_topological}
use microbe.Lifecycle.Build.{volumes_in}
use microbe.Commands.World.{start_service, stop_service, World, Outside, ask}
use microbe.Commands.Up.{
  Progress, addr_at, ensure_volumes, start_shares, forward_ports, stop_recorded, degrade,
  after_probe, check_health, up_service, up_services, record_pids, stop_shares, stopped_by,
  has_healthcheck,
}
use microbe.Commands.Started.{
  starts_of, StartsNone, ask-starts, ask-StartsNone, ensure_volumes-StartsNone,
  start_shares-StartsNone, forward_ports-StartsNone, append_assoc, append_nil,
}

first_part :
    (services : Map Service) (selected before xs ys : List Text)
    → DepsFirst services selected before (xs ++ ys)
    → DepsFirst services selected before xs
first_part services selected before [] ys h = tt
first_part services selected before (x ∷ xs) ys h =
    (h.0, first_part services selected (before ++ x ∷ []) xs ys h.1)

module _ (out : Outside) where
  stop_recorded-StartsNone :
      (pid : ℤ) (svc : Text) (pids : Map ℤ) → StartsNone (stop_recorded out pid svc pids)
  unfolding stop_recorded
  stop_recorded-StartsNone pid svc pids w = elim (Result-cases (ask out (stop_service pid) w).0) [
    | inl (n, e) ↦ rw (e, stop_recorded) (ask-StartsNone out (stop_service pid) refl w)
    | inr (x, e) ↦ rw (e, stop_recorded) (ask-StartsNone out (stop_service pid) refl w)
  ]

  degrade-StartsNone :
      (svc : Text) (pid virtiofsd_pid : ℤ) (p : Progress)
      → StartsNone (degrade out svc pid virtiofsd_pid p)
  unfolding degrade
  degrade-StartsNone svc pid virtiofsd_pid p =
      and_then-Keeps starts_of (stop_recorded out pid svc p.run.pids) _
        (stop_recorded-StartsNone pid svc p.run.pids)
        λ pids.
          and_then-Keeps starts_of (stop_shares out virtiofsd_pid svc p.run.virtiofsd_pids) _
            (if-Keeps starts_of (int_eq virtiofsd_pid (pos 0)) (return p.run.virtiofsd_pids)
              (stop_recorded out virtiofsd_pid svc p.run.virtiofsd_pids) (λ w. refl)
              (stop_recorded-StartsNone virtiofsd_pid svc p.run.virtiofsd_pids))
            (λ _ w. refl)

  after_probe-StartsNone :
      (svc : Text) (pid virtiofsd_pid : ℤ) (p : Progress) (r : Result Text Bool)
      → StartsNone (after_probe out svc pid virtiofsd_pid p r)
  unfolding after_probe
  after_probe-StartsNone svc pid virtiofsd_pid p (err e) = λ w. refl
  after_probe-StartsNone svc pid virtiofsd_pid p (ok false) =
      degrade-StartsNone svc pid virtiofsd_pid p
  after_probe-StartsNone svc pid virtiofsd_pid p (ok true) = λ w. refl

  check_health-StartsNone :
      (svc : Text) (s : Option Service) (pid virtiofsd_pid : ℤ) (p : Progress)
      → StartsNone (check_health out svc s pid virtiofsd_pid p)
  unfolding check_health
  check_health-StartsNone svc s pid virtiofsd_pid p w =
      if-Keeps starts_of (has_healthcheck out s)
        (after_probe out svc pid virtiofsd_pid p (out.healthy w svc)) (return p)
        (after_probe-StartsNone svc pid virtiofsd_pid p (out.healthy w svc)) (λ v. refl) w

  -- A round that succeeds starts its service.
  up_service-starts :
      (cfg : Compose) (st : Stack) (p p' : Progress) (svc : Text) (w w' : World)
      → up_service out cfg st p svc w ≡ (ok p', w')
      → starts_of w' ≡ starts_of w ++ svc ∷ []
  unfolding up_service
  up_service-starts cfg st p p' svc w w' h =
      let s = lookup svc cfg.services in
      let (a, u1, e1, f1) = and_then-eq-ok (ensure_volumes out (volumes_in s)) _ w h in
      let (v, u2, e2, f2) = and_then-eq-ok (start_shares out svc s) _ u1 f1 in
      let (pid, u3, e3, f3) = and_then-eq-ok (ask out (start_service svc)) _ u2 f2 in
      let (q, u4, e4, f4) =
        and_then-eq-ok
          (forward_ports out (addr_at (lookup svc st.services)) (ports_in s)
            (record_pids out svc pid v p))
          _ u3 f3 in
      ap (λ x. starts_of x.1) (sym f4)
      ∙ check_health-StartsNone svc s pid v q u4
      ∙ ap (λ x. starts_of x.1) (sym e4)
      ∙ forward_ports-StartsNone out (addr_at (lookup svc st.services)) (ports_in s)
          (record_pids out svc pid v p) u3
      ∙ ap (λ x. starts_of x.1) (sym e3)
      ∙ ask-starts out (start_service svc) u2
      ∙ ap (λ l. l ++ svc ∷ [])
          (ap (λ x. starts_of x.1) (sym e2)
            ∙ start_shares-StartsNone out svc s u1
            ∙ ap (λ x. starts_of x.1) (sym e1)
            ∙ ensure_volumes-StartsNone out (volumes_in s) w)

  -- Where the loop of up ends without an error of the host, the services that it started are the first
  -- ones of the order, each once and in that order: all of them, unless one was not healthy, and then
  -- those up to that one.
  pub up_services-starts :
      (cfg : Compose) (st : Stack) (p p' : Progress) (order : List Text) (w w' : World)
      → p.failed ≡ none
      → up_services out cfg st p order w ≡ (ok p', w')
      → (done : List Text) × (rest : List Text) × (order ≡ done ++ rest)
        × (starts_of w' ≡ starts_of w ++ done)
        × (p'.failed ≡ none → rest ≡ [])
  unfolding up_services
  up_services-starts cfg st p p' [] w w' n h =
      ([], [], refl, ap starts_of (sym (same_state h)) ∙ sym (append_nil (starts_of w)), λ _. refl)
  up_services-starts cfg st p p' (svc ∷ order) w w' n h =
      let (q, u, e, f) =
        and_then-eq-ok (up_service out cfg st p svc)
          (λ q. if stopped_by out q.failed then return q else up_services out cfg st q order) w h in
      let first = up_service-starts cfg st p q svc w u e in
      elim (Option-cases q.failed) [
        | inl healthy ↦
            let (done, rest, split, starts, full) =
              up_services-starts cfg st q p' order u w' healthy (rw healthy at f) in
            (
              svc ∷ done,
              rest,
              ap (λ l. svc ∷ l) split,
              starts ∙ ap (λ l. l ++ done) first ∙ append_assoc (starts_of w) (svc ∷ []) done,
              full,
            )
        | inr (x, degraded) ↦
            let done = rw degraded at f in
            (
              svc ∷ [],
              order,
              refl,
              ap starts_of (sym (same_state done)) ∙ first,
              λ k.
                  absurd (
                    cc
                      (degraded, k, ap (λ (t : Progress). t.failed) (ok_inj (ap (λ y. y.0) done)))),
            )
      ]

  -- Where the loop of upRun ends on an order that startOrder returned, without an error of the
  -- host, each service that it started stands behind those of its dependencies that are selected,
  -- which it started before; and it started every selected service, unless one was not healthy.
  pub up_services-DepsFirst :
      (cfg : Compose) (st : Stack) (p p' : Progress) (selected order : List Text) (w w' : World)
      → start_order cfg.services selected ≡ ok order
      → p.failed ≡ none
      → up_services out cfg st p order w ≡ (ok p', w')
      → (done : List Text) × (starts_of w' ≡ starts_of w ++ done)
        × DepsFirst cfg.services selected [] done
        × (p'.failed ≡ none → All (λ n. contains n done ≡ true) selected)
  up_services-DepsFirst cfg st p p' selected order w w' s n h =
      let (done, rest, split, starts, full) = up_services-starts cfg st p p' order w w' n h in
      elim (start_order_topological cfg.services selected) [
        | inl (order', e, first, all) ↦
            let same : order' ≡ done ++ rest = ok_inj (sym e ∙ s) ∙ split in
            (
              done,
              starts,
              first_part cfg.services selected [] done rest
                  (subst (DepsFirst cfg.services selected []) same first),
              λ k.
                  subst (λ l. All (λ m. contains m l ≡ true) selected)
                    (same ∙ ap (λ l. done ++ l) (full k) ∙ append_nil done) all,
            )
        | inr (c, e) ↦ absurd (cc (e, s))
      ]
