-- ===== src/Purge/Unrecorded.antt =====
-- `pidsForAPISocket` and the part of `stopStackVMs` of internal/cmd/purge.go that stops VMs without a
-- recorded pid.
use microbe.Base.{
  ◌≡◌, refl, sym, ap, ◌∙◌, Bool, true, false, not, ◌&&◌, ◌||◌, inl, inr, ◌==◌, ℤ, pos, int_lt, atoi,
  ok, ok_inj, Option, Option-cases, some, none, List, [], ◌∷◌, ◌++◌, Text, codes, has_prefix,
  length, lookup, insert, lookup-insert_self, arith, return, and_then-eq-ok, each, same_state,
  if◌then◌else◌,
}
use microbe.Lifecycle.State.{ServiceState, Store}
use microbe.Lifecycle.Reconcile.{answers}
use microbe.Purge.World.{World, Outside, asked, stop}
use microbe.Purge.Vms.{
  has_substring, api_socket_proc_match, spaced, pids_for_api_socket, pid_if, stopped_state, stop_fn,
  stop_recorded, unrecorded_pids, mark, stop_unrecorded, stop_vm,
}
use microbe.Purge.Stopped.{has_int, has_int-append}

has_substring_of_prefix : (s sub : Text) → has_prefix s sub ≡ true → has_substring s sub ≡ true
unfolding has_substring
has_substring_of_prefix [] sub h = h
has_substring_of_prefix (c ∷ cs) sub h = ground (arith, h)

has_substring_behind :
    (s pre sub : Text) → has_prefix s (pre ++ sub) ≡ true → has_substring s sub ≡ true
unfolding has_prefix has_substring
has_substring_behind s [] sub h = has_substring_of_prefix s sub h
has_substring_behind [] (x ∷ pre) sub h = absurd (cc h)
has_substring_behind (c ∷ cs) (x ∷ pre) sub h = ground (arith, h, has_substring_behind cs pre sub)

has_substring-suffix :
    (s pre sub : Text) → has_substring s (pre ++ sub) ≡ true → has_substring s sub ≡ true
unfolding has_substring
has_substring-suffix [] pre sub h = has_substring_behind [] pre sub h
has_substring-suffix (c ∷ cs) pre sub h =
    ground (arith, h, has_substring_behind (c ∷ cs) pre sub, has_substring-suffix cs pre sub)

match-suffix :
    (cmdline pre base : Text)
    → api_socket_proc_match cmdline (pre ++ base) ≡ true
    → api_socket_proc_match cmdline base ≡ true
unfolding api_socket_proc_match
match-suffix cmdline pre base h = ground (arith, h, has_substring-suffix cmdline pre base)

pid_if-suffix :
    (pid : ℤ) (pre base : Text) (found : Option ℤ) (cmdline : Option Text)
    → has_int pid (pid_if (pre ++ base) found cmdline) ≡ true
    → has_int pid (pid_if base found cmdline) ≡ true
pid_if-suffix pid pre base none cmdline h = absurd (cc h)
pid_if-suffix pid pre base (some n) none h = absurd (cc h)
pid_if-suffix pid pre base (some n) (some cmd) h =
    ground (arith, h, match-suffix (spaced cmd) pre base)

-- Every process that holds the API socket of one service is also taken for one of any service whose
-- socket's name is a suffix of that one's, `mydb.sock` for `db.sock`; the directory of the socket, and
-- with it the stack, is not compared.
pub pids_for_api_socket-suffix :
    (pid : ℤ) (pre base : Text) (procs : List (Text × Option Text))
    → has_int pid (pids_for_api_socket procs (pre ++ base)) ≡ true
    → has_int pid (pids_for_api_socket procs base) ≡ true
unfolding pids_for_api_socket
pids_for_api_socket-suffix pid pre base [] h = absurd (cc h)
pids_for_api_socket-suffix pid pre base ((name, cmdline) ∷ procs) h = ground (
  arith,
  h,
  has_int-append pid (pid_if (pre ++ base) (atoi name) cmdline)
      (pids_for_api_socket procs (pre ++ base)),
  has_int-append pid (pid_if base (atoi name) cmdline) (pids_for_api_socket procs base),
  pid_if-suffix pid pre base (atoi name) cmdline,
  pids_for_api_socket-suffix pid pre base procs,
)

module _ (out : Outside) where
  stop-stopped :
      (pid : ℤ) (w w' : World) (a : Unit {0})
      → stop_fn out false pid w ≡ (ok a, w')
      → w'.stopped ≡ w.stopped ++ pid ∷ []
  unfolding stop_fn stop
  stop-stopped pid w w' a e = elim (Option-cases (out.stop w pid)) [
    | inl q ↦ ap (λ (u : World). u.stopped) (sym (same_state (rw (q, asked) at e)))
    | inr (x, q) ↦ absurd (cc (rw (q, asked) at e))
  ]

  append_assoc : (xs ys zs : List ℤ) → (xs ++ ys) ++ zs ≡ xs ++ (ys ++ zs)
  append_assoc [] ys zs = refl
  append_assoc (x ∷ xs) ys zs = ap (λ l. x ∷ l) (append_assoc xs ys zs)

  append_nil : (xs : List ℤ) → xs ++ [] ≡ xs
  append_nil [] = refl
  append_nil (x ∷ xs) = ap (λ l. x ∷ l) (append_nil xs)

  each-stopped :
      (pids : List ℤ) (w w' : World) (a : Unit {0})
      → each (stop_fn out false) pids w ≡ (ok a, w')
      → w'.stopped ≡ w.stopped ++ pids
  unfolding each
  each-stopped [] w w' a e =
      ap (λ (u : World). u.stopped) (sym (same_state e)) ∙ sym (append_nil w.stopped)
  each-stopped (pid ∷ pids) w w' a e =
      let (b, u, e1, e2) =
        and_then-eq-ok (stop_fn out false pid) (λ _. each (stop_fn out false) pids) w e in
      each-stopped pids u w' a e2
      ∙ rw (stop-stopped pid w u b e1) (append_assoc w.stopped (pid ∷ []) pids)

  marked :
      (store : Store) (name : Text) (s : ServiceState) (a b : Bool)
      → b ≡ false
      → lookup name (mark out false store name s (a || not b)).services ≡ some (stopped_state s)
  unfolding mark
  marked store name s a b h = rw h (either_way a)
    where
      either_way :
          (c : Bool)
          → lookup name
              (if (c || true) && true
                then record store { services = insert name (stopped_state s) store.services }
                else store).services
            ≡ some (stopped_state s)
      either_way true = lookup-insert_self name (stopped_state s) store.services
      either_way false = lookup-insert_self name (stopped_state s) store.services

  stop_unrecorded-stopped :
      (stack name : Text) (store store' : Store) (s : ServiceState) (w w' : World)
      → (length (unrecorded_pids out false stack name w) == 0) ≡ false
      → stop_unrecorded out false stack store name s w ≡ (ok store', w')
      → (w'.stopped ≡ w.stopped ++ unrecorded_pids out false stack name w)
        × (lookup name store'.services ≡ some (stopped_state s))
  unfolding stop_unrecorded
  stop_unrecorded-stopped stack name store store' s w w' n e =
      let pids = unrecorded_pids out false stack name w in
      let (a, u, e1, e2) =
        and_then-eq-ok (each (stop_fn out false) pids)
          (λ _.
            return (mark out false store name s (int_lt (pos 0) s.pid || not (length pids == 0))))
          w e in
      (
        ap (λ (v : World). v.stopped) (sym (same_state e2)) ∙ each-stopped pids w u a e1,
        ap (λ (t : Store). lookup name t.services) (sym (ok_inj (ap (λ x. x.0) e2)))
            ∙ marked store name s (int_lt (pos 0) s.pid) (length pids == 0) n,
      )

  unrecorded-pids :
      (stack name : Text) (w : World) (pids : List ℤ)
      → answers (out.vm_state w stack name) ≡ true
      → pids_for_api_socket (out.processes w) (name ++ codes ".sock") ≡ pids
      → unrecorded_pids out false stack name w ≡ pids
  unfolding unrecorded_pids
  unrecorded-pids stack name w pids a p = rw (a, p) refl

  -- Where a round of stopStackVMs that succeeds and is no dry run finds no recorded pid, but
  -- processes behind the socket of a VM that answers, it asks for exactly those processes to stop,
  -- and yet records the service as stopped with neither pid, so that its virtiofsd is not recorded
  -- any more.
  pub stop_vm_forgets_virtiofsd :
      (stack name : Text) (store store' : Store) (s : ServiceState) (pid : ℤ) (pids : List ℤ)
      (w w' : World)
      → int_lt (pos 0) s.pid ≡ false
      → answers (out.vm_state w stack name) ≡ true
      → pids_for_api_socket (out.processes w) (name ++ codes ".sock") ≡ pid ∷ pids
      → stop_vm out false stack store name (some s) w ≡ (ok store', w')
      → (w'.stopped ≡ w.stopped ++ pid ∷ pids)
        × (lookup name store'.services
            ≡ some (record s { status = codes "stopped"; pid = pos 0; virtiofsd_pid = pos 0 }))
  unfolding stop_vm stop_recorded
  stop_vm_forgets_virtiofsd stack name store store' s pid pids w w' h a p e =
      let (b, u, e1, e2) =
        and_then-eq-ok (stop_recorded out false s)
          (λ _. stop_unrecorded out false stack store name s) w e in
      let same : u ≡ w = sym (same_state (rw h at e1)) in
      let found = unrecorded-pids stack name w (pid ∷ pids) a p in
      let (asked_for, recorded) =
        stop_unrecorded-stopped stack name store store' s w w' (rw found (ground arith))
          (rw same at e2) in
      (rw found at asked_for, recorded)
