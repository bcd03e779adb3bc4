-- ===== src/Purge/Stopped.antt =====
-- `stopStackVMs` of internal/cmd/purge.go: what a run that succeeds has stopped and recorded.
use microbe.Base.{
  ◌≡◌, refl, sym, ◌∙◌, Bool, true, false, not, ◌||◌, Option-cases, inl, inr, ◌==◌, ℤ, pos, negsuc,
  int_eq, int_lt, ok, Option, some, none, List, [], ◌∷◌, ◌++◌, Text, length, All-of, lookup,
  if◌then◌else◌, arith, return, and_then, each, and_then-eq-ok, Preserves, and_then-Preserves,
  return-Preserves, if-Preserves, each-Preserves, same_state,
}
use microbe.Lifecycle.State.{ServiceState, Store}
use microbe.Purge.World.{World, Outside, asked, stop}
use microbe.Purge.Vms.{
  stop_fn, stop_recorded, unrecorded_pids, mark, stop_unrecorded, stop_vm, stop_vms,
}

abbrev pub has_int : ℤ → List ℤ → Bool
has_int n [] = false
has_int n (m ∷ ms) = int_eq n m || has_int n ms

int_eq_refl : (n : ℤ) → int_eq n n ≡ true
int_eq_refl (pos n) = ground arith
int_eq_refl (negsuc n) = ground arith

pub has_int-append :
    (n : ℤ) (ms ks : List ℤ) → has_int n (ms ++ ks) ≡ (has_int n ms || has_int n ks)
has_int-append n [] ks = refl
has_int-append n (m ∷ ms) ks = ground (arith, has_int-append n ms ks)

-- The pid was asked to stop.
abbrev pub WasAsked : ℤ → World → Type 0
WasAsked pid w = has_int pid w.stopped ≡ true

module _ (out : Outside) where
  stop-eq-ok :
      (pid : ℤ) (w w' : World) (a : Unit {0})
      → stop out pid w ≡ (ok a, w')
      → w' ≡ record w { stopped = w.stopped ++ pid ∷ [] }
  unfolding stop
  stop-eq-ok pid w w' a e = elim (Option-cases (out.stop w pid)) [
    | inl q ↦ sym (same_state (rw (q, asked) at e))
    | inr (x, q) ↦ absurd (cc (rw (q, asked) at e))
  ]

  stop_fn-Preserves : (pid other : ℤ) → Preserves (WasAsked pid) (stop_fn out false other)
  unfolding stop_fn
  stop_fn-Preserves pid other w w' a h e =
      rw (stop-eq-ok other w w' a e)
        (has_int-append pid w.stopped (other ∷ []) ∙ rw h (ground arith))

  stop_fn-asks :
      (pid : ℤ) (w w' : World) (a : Unit {0})
      → stop_fn out false pid w ≡ (ok a, w')
      → WasAsked pid w'
  unfolding stop_fn
  stop_fn-asks pid w w' a e =
      rw (stop-eq-ok pid w w' a e)
        (has_int-append pid w.stopped (pid ∷ []) ∙ ground (arith, int_eq_refl pid))

  stop_recorded-Preserves :
      (pid : ℤ) (s : ServiceState) → Preserves (WasAsked pid) (stop_recorded out false s)
  unfolding stop_recorded
  stop_recorded-Preserves pid s =
      if-Preserves (WasAsked pid) (int_lt (pos 0) s.pid)
        (and_then (stop_fn out false s.pid) (λ _.
          if int_lt (pos 0) s.virtiofsd_pid then stop_fn out false s.virtiofsd_pid else return tt))
        (return tt)
        (and_then-Preserves (WasAsked pid) (stop_fn out false s.pid)
          (λ _.
            if int_lt (pos 0) s.virtiofsd_pid then stop_fn out false s.virtiofsd_pid else return tt)
          (stop_fn-Preserves pid s.pid)
          (λ _.
            if-Preserves (WasAsked pid) (int_lt (pos 0) s.virtiofsd_pid)
              (stop_fn out false s.virtiofsd_pid) (return tt)
              (stop_fn-Preserves pid s.virtiofsd_pid) (return-Preserves (WasAsked pid) tt)))
        (return-Preserves (WasAsked pid) tt)

  -- What a recorded pid asks for: the VM's, and the virtiofsd's that is recorded with it.
  abbrev pub IsStopped : ServiceState → World → Type 0
  IsStopped s w =
      WasAsked s.pid w × ((int_lt (pos 0) s.virtiofsd_pid ≡ true) → WasAsked s.virtiofsd_pid w)

  stop_recorded-IsStopped :
      (s : ServiceState) (w w' : World) (a : Unit {0})
      → int_lt (pos 0) s.pid ≡ true
      → stop_recorded out false s w ≡ (ok a, w')
      → IsStopped s w'
  unfolding stop_recorded
  stop_recorded-IsStopped s w w' a h e =
      let (b, u, e1, e2) =
        and_then-eq-ok (stop_fn out false s.pid)
          (λ _.
            if int_lt (pos 0) s.virtiofsd_pid then stop_fn out false s.virtiofsd_pid else return tt)
          w (rw h at e) in
      (
        if-Preserves (WasAsked s.pid) (int_lt (pos 0) s.virtiofsd_pid)
            (stop_fn out false s.virtiofsd_pid) (return tt)
            (stop_fn-Preserves s.pid s.virtiofsd_pid) (return-Preserves (WasAsked s.pid) tt) u w' a
            (stop_fn-asks s.pid w u b e1) e2,
        λ q. stop_fn-asks s.virtiofsd_pid u w' a (rw q at e2),
      )

  stop_unrecorded-Preserves :
      (pid : ℤ) (stack name : Text) (store : Store) (s : ServiceState)
      → Preserves (WasAsked pid) (stop_unrecorded out false stack store name s)
  unfolding stop_unrecorded
  stop_unrecorded-Preserves pid stack name store s w =
      and_then-Preserves (WasAsked pid)
        (each (stop_fn out false) (unrecorded_pids out false stack name w))
        (λ _. return (
          mark out false store name s
            (int_lt (pos 0) s.pid || not (length (unrecorded_pids out false stack name w) == 0))))
        (each-Preserves (WasAsked pid) (stop_fn out false) (unrecorded_pids out false stack name w)
          (All-of (unrecorded_pids out false stack name w) (stop_fn-Preserves pid)))
        (λ _. return-Preserves (WasAsked pid) (
          mark out false store name s
            (int_lt (pos 0) s.pid || not (length (unrecorded_pids out false stack name w) == 0))))
        w

  stop_vm-Preserves :
      (pid : ℤ) (stack name : Text) (store : Store) (o : Option ServiceState)
      → Preserves (WasAsked pid) (stop_vm out false stack store name o)
  unfolding stop_vm
  stop_vm-Preserves pid stack name store none = return-Preserves (WasAsked pid) store
  stop_vm-Preserves pid stack name store (some s) =
      and_then-Preserves (WasAsked pid) (stop_recorded out false s)
        (λ _. stop_unrecorded out false stack store name s) (stop_recorded-Preserves pid s)
        (λ _. stop_unrecorded-Preserves pid stack name store s)

  pub stop_vms-Preserves :
      (pid : ℤ) (stack : Text) (names : List Text) (store : Store)
      → Preserves (WasAsked pid) (stop_vms out false stack store names)
  unfolding stop_vms
  stop_vms-Preserves pid stack [] store = return-Preserves (WasAsked pid) store
  stop_vms-Preserves pid stack (name ∷ names) store =
      and_then-Preserves (WasAsked pid)
        (stop_vm out false stack store name (lookup name store.services))
        (λ store'. stop_vms out false stack store' names)
        (stop_vm-Preserves pid stack name store (lookup name store.services))
        (λ store'. stop_vms-Preserves pid stack names store')

  -- A round for a service with a pid asks for what is recorded.
  pub stop_vm-IsStopped :
      (stack name : Text) (store store' : Store) (s : ServiceState) (w w' : World)
      → int_lt (pos 0) s.pid ≡ true
      → stop_vm out false stack store name (some s) w ≡ (ok store', w')
      → IsStopped s w'
  unfolding stop_vm
  stop_vm-IsStopped stack name store store' s w w' h e =
      let (a, u, e1, e2) =
        and_then-eq-ok (stop_recorded out false s)
          (λ _. stop_unrecorded out false stack store name s) w e in
      let (x, y) = stop_recorded-IsStopped s w u a h e1 in
      (
        stop_unrecorded-Preserves s.pid stack name store s u w' store' x e2,
        λ q. stop_unrecorded-Preserves s.virtiofsd_pid stack name store s u w' store' (y q) e2,
      )
