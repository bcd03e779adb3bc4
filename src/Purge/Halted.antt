-- ===== src/Purge/Halted.antt =====
-- The state file that a run of `stopStackVMs` of internal/cmd/purge.go leaves.
use microbe.Base.{
  ◌≡◌, refl, sym, ap, subst, ◌∙◌, Bool, true, false, not, ◌&&◌, ◌||◌, Bool-cases, Option-cases, inl,
  inr, ◌==◌, pos, int_lt, ok, ok_inj, Option, some, none, List, [], ◌∷◌, Text, codes, text_eq,
  text_eq_iff, length, contains, contains-sort_texts, lookup, insert, lookup-insert,
  lookup-insert_self, has-contains, keys, sort_texts, if◌then◌else◌, arith, return, each,
  and_then-eq-ok, same_state,
}
use microbe.Lifecycle.State.{ServiceState, Store}
use microbe.Purge.World.{World, Outside, save}
use microbe.Purge.Vms.{
  stopped_state, stop_fn, stop_recorded, unrecorded_pids, mark, stop_unrecorded, stop_vm, stop_vms,
  stop_stack_vms,
}
use microbe.Purge.Stopped.{IsStopped, stop_vms-Preserves, stop_vm-IsStopped}

abbrev stopped_of : Option ServiceState → Option ServiceState
stopped_of none = none
stopped_of (some s) = some (stopped_state s)

state_inj : {a b : ServiceState} → ◌≡◌ {A = Option ServiceState} (some a) (some b) → a ≡ b
state_inj e = cc e

first_true : (a b : Bool) → a ≡ true → (a || b) ≡ true
first_true a b h = ground (arith, h)

second_true : (a b : Bool) → (a && b) ≡ true → b ≡ true
second_true a b h = ground (arith, h)

both_false : (a : Bool) {b : Bool} → b ≡ false → (a && b) ≡ false
both_false a h = ground (arith, h)

module _ (out : Outside) where
  lookup-mark :
      (store : Store) (name j : Text) (s : ServiceState) (b : Bool)
      → lookup j (mark out false store name s b).services
        ≡ (if b && text_eq name j then some (stopped_state s) else lookup j store.services)
  unfolding mark
  lookup-mark store name j s true = lookup-insert name j (stopped_state s) store.services
  lookup-mark store name j s false = refl

  -- A round changes at most the record of its service.
  stop_vm-lookup :
      (stack name j : Text) (store store' : Store) (o : Option ServiceState) (w w' : World)
      → stop_vm out false stack store name o w ≡ (ok store', w')
      → (b : Bool) × (lookup j store'.services
          ≡ (if b && text_eq name j then stopped_of o else lookup j store.services))
        × ((s : ServiceState) → o ≡ some s → int_lt (pos 0) s.pid ≡ true → b ≡ true)
  unfolding stop_vm stop_unrecorded
  stop_vm-lookup stack name j store store' none w w' e = (
    false,
    ap (λ (t : Store). lookup j t.services) (sym (ok_inj (ap (λ x. x.0) e))),
    λ s q. absurd (cc q),
  )
  stop_vm-lookup stack name j store store' (some s) w w' e =
      let (a, u, e1, e2) =
        and_then-eq-ok (stop_recorded out false s)
          (λ _. stop_unrecorded out false stack store name s) w e in
      let b = int_lt (pos 0) s.pid || not (length (unrecorded_pids out false stack name u) == 0) in
      let (c, v, e3, e4) =
        and_then-eq-ok (each (stop_fn out false) (unrecorded_pids out false stack name u))
          (λ _. return (mark out false store name s b)) u e2 in
      (
        b,
        ap (λ (t : Store). lookup j t.services) (sym (ok_inj (ap (λ x. x.0) e4)))
            ∙ lookup-mark store name j s b,
        λ t q h.
            first_true (int_lt (pos 0) s.pid)
              (not (length (unrecorded_pids out false stack name u) == 0))
              (subst (λ (r : ServiceState). int_lt (pos 0) r.pid ≡ true) (sym (state_inj q)) h),
      )

  stop_vm-keeps_stopped :
      (stack name j : Text) (store store' : Store) (s : ServiceState) (w w' : World)
      → lookup j store.services ≡ some (stopped_state s)
      → stop_vm out false stack store name (lookup name store.services) w ≡ (ok store', w')
      → lookup j store'.services ≡ some (stopped_state s)
  stop_vm-keeps_stopped stack name j store store' s w w' h e =
      let (b, found, _) =
        stop_vm-lookup stack name j store store' (lookup name store.services) w w' e in
      found ∙ elim (Bool-cases (b && text_eq name j)) [
        | inl q ↦ rw q (rw ((text_eq_iff name j).0 (second_true b (text_eq name j) q)) (rw h refl))
        | inr q ↦ rw q h
      ]

  stop_vms-keeps_stopped :
      (stack j : Text) (names : List Text) (store store' : Store) (s : ServiceState) (w w' : World)
      → lookup j store.services ≡ some (stopped_state s)
      → stop_vms out false stack store names w ≡ (ok store', w')
      → lookup j store'.services ≡ some (stopped_state s)
  unfolding stop_vms
  stop_vms-keeps_stopped stack j [] store store' s w w' h e =
      ap (λ (t : Store). lookup j t.services) (sym (ok_inj (ap (λ x. x.0) e))) ∙ h
  stop_vms-keeps_stopped stack j (name ∷ names) store store' s w w' h e =
      let (t, u, e1, e2) =
        and_then-eq-ok (stop_vm out false stack store name (lookup name store.services))
          (λ store''. stop_vms out false stack store'' names) w e in
      stop_vms-keeps_stopped stack j names t store' s u w'
        (stop_vm-keeps_stopped stack name j store t s w u h e1) e2

  -- The loop, for a service with a recorded pid.
  stop_vms-halts :
      (stack j : Text) (names : List Text) (store store' : Store) (s : ServiceState) (w w' : World)
      → lookup j store.services ≡ some s
      → int_lt (pos 0) s.pid ≡ true
      → contains j names ≡ true
      → stop_vms out false stack store names w ≡ (ok store', w')
      → IsStopped out s w' × (lookup j store'.services ≡ some (stopped_state s))
  unfolding stop_vms
  stop_vms-halts stack j [] store store' s w w' found live h e = absurd (cc h)
  stop_vms-halts stack j (name ∷ names) store store' s w w' found live h e =
      let (t, u, e1, e2) =
        and_then-eq-ok (stop_vm out false stack store name (lookup name store.services))
          (λ store''. stop_vms out false stack store'' names) w e in
      let (b, after, set) =
        stop_vm-lookup stack name j store t (lookup name store.services) w u e1 in
      elim (Bool-cases (text_eq name j)) [
        | inl q ↦
            let here : lookup name store.services ≡ some s =
              rw (sym ((text_eq_iff name j).0 q)) at found in
            let (x, y) = stop_vm-IsStopped out stack name store t s w u live (rw here at e1) in
            (
              (
                stop_vms-Preserves out s.pid stack names t u w' store' x e2,
                λ v. stop_vms-Preserves out s.virtiofsd_pid stack names t u w' store' (y v) e2,
              ),
              stop_vms-keeps_stopped stack j names t store' s u w'
                  (after ∙ rw (set s here live) (rw q (rw here refl))) e2,
            )
        | inr q ↦
            stop_vms-halts stack j names t store' s u w' (after ∙ rw (both_false b q) found) live
              (ground (arith, text_eq_iff j name, text_eq_iff name j, h, q)) e2
      ]

  save-eq-ok :
      (stack : Text) (store : Store) (w w' : World) (a : Unit {0})
      → save out stack store w ≡ (ok a, w')
      → w' ≡ record w { saved = insert stack store w.saved }
  unfolding save
  save-eq-ok stack store w w' a e = elim (Option-cases (out.save w stack)) [
    | inl q ↦ sym (same_state (rw (q, save) at e))
    | inr (x, q) ↦ absurd (cc (rw (q, save) at e))
  ]

  -- Where stopStackVMs succeeds and is no dry run, each service with a recorded pid was asked to
  -- stop, and with it the virtiofsd that is recorded beside it; the saved state has the service as
  -- stopped, with neither pid and with all else as it was.
  pub stop_stack_vms-halts :
      (stack j : Text) (store : Store) (s : ServiceState) (w w' : World) (a : Unit {0})
      → lookup j store.services ≡ some s
      → int_lt (pos 0) s.pid ≡ true
      → stop_stack_vms out false stack store w ≡ (ok a, w')
      → IsStopped out s w'
        × ((saved : Store) × (lookup stack w'.saved ≡ some saved)
            × (lookup j saved.services
                ≡ some (record s { status = codes "stopped"; pid = pos 0; virtiofsd_pid = pos 0 })))
  unfolding stop_stack_vms
  stop_stack_vms-halts stack j store s w w' a found live e =
      let (t, u, e1, e2) =
        and_then-eq-ok (stop_vms out false stack store (sort_texts (keys store.services)))
          (λ store'. save out stack store') w e in
      let (asked, recorded) =
        stop_vms-halts stack j (sort_texts (keys store.services)) store t s w u found live
          (contains-sort_texts j (keys store.services)
            ∙ sym (has-contains j store.services)
            ∙ rw found refl)
          e1 in
      rw (save-eq-ok stack t u w' a e2) (asked, (t, lookup-insert_self stack t u.saved, recorded))
