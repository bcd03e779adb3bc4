-- ===== src/Purge/Failed.antt =====
-- Errors of `stopStackVMs` and of `removeVolumesForStore` of internal/cmd/purge.go: the state file
-- changes at the end of a run that succeeds, or not at all.
use microbe.Base.{
  ◌≡◌, refl, ◌∙◌, ◌⊎◌, Bool, true, false, not, ◌||◌, Option-cases, inl, inr, ◌==◌, ℤ, pos, int_lt,
  ok, err, Result, Option, some, none, List, [], ◌∷◌, ◌++◌, Text, length, Map, lookup, insert, keys,
  erase, sort_texts, if◌then◌else◌, return, and_then, continue, each, Keeps, and_then-Keeps,
  if-Keeps, each-Keeps,
}
use microbe.Lifecycle.State.{ServiceState, Store}
use microbe.Purge.World.{
  World, Outside, Purge, PurgeError, asked, stop, save, remove, volume_image_path, dir,
}
use microbe.Purge.Vms.{
  stop_fn, stop_recorded, unrecorded_pids, mark, stop_unrecorded, stop_vm, stop_vms, stop_stack_vms,
}
use microbe.Purge.Volumes.{volumes_of, remove_image, remove_service, remove_services, remove_all}

abbrev saved_of : World → Map Store
saved_of w = w.saved

-- The action leaves every state file as it is, whether it succeeds or not.
abbrev KeepsFiles : {A : Type 0} → Purge A → Type 0
KeepsFiles m = Keeps saved_of m

-- A run changed the state file of this stack and succeeded, or it changed no state file and failed.
abbrev pub IsAllOrNothing : Text → World → Result PurgeError (Unit {0}) × World → Type 0
IsAllOrNothing stack w (r, w') =
    ((r ≡ ok tt) × ((store : Store) × (w'.saved ≡ insert stack store w.saved)))
    ⊎ ((e : PurgeError) × (r ≡ err e) × (w'.saved ≡ w.saved))

module _ (out : Outside) where
  asked-saved : (o : Option Text) (w : World) → (asked o w).1.saved ≡ w.saved
  unfolding asked
  asked-saved none w = refl
  asked-saved (some e) w = refl

  stop_fn-Keeps : (dry_run : Bool) (pid : ℤ) → KeepsFiles (stop_fn out dry_run pid)
  unfolding stop_fn stop
  stop_fn-Keeps true pid w = refl
  stop_fn-Keeps false pid w =
      asked-saved (out.stop w pid) (record w { stopped = w.stopped ++ pid ∷ [] })

  stop_recorded-Keeps :
      (dry_run : Bool) (s : ServiceState) → KeepsFiles (stop_recorded out dry_run s)
  unfolding stop_recorded
  stop_recorded-Keeps dry_run s =
      if-Keeps saved_of (int_lt (pos 0) s.pid)
        (and_then (stop_fn out dry_run s.pid) (λ _.
          if int_lt (pos 0) s.virtiofsd_pid
          then stop_fn out dry_run s.virtiofsd_pid
          else return tt))
        (return tt)
        (and_then-Keeps saved_of (stop_fn out dry_run s.pid)
          (λ _.
            if int_lt (pos 0) s.virtiofsd_pid
            then stop_fn out dry_run s.virtiofsd_pid
            else return tt)
          (stop_fn-Keeps dry_run s.pid)
          (λ _.
            if-Keeps saved_of (int_lt (pos 0) s.virtiofsd_pid) (stop_fn out dry_run s.virtiofsd_pid)
              (return tt) (stop_fn-Keeps dry_run s.virtiofsd_pid) (λ w. refl)))
        (λ w. refl)

  stop_vm-Keeps :
      (dry_run : Bool) (stack name : Text) (store : Store) (o : Option ServiceState)
      → KeepsFiles (stop_vm out dry_run stack store name o)
  unfolding stop_vm stop_unrecorded
  stop_vm-Keeps dry_run stack name store none = λ w. refl
  stop_vm-Keeps dry_run stack name store (some s) =
      and_then-Keeps saved_of (stop_recorded out dry_run s)
        (λ _. stop_unrecorded out dry_run stack store name s) (stop_recorded-Keeps dry_run s)
        λ _ w.
          let pids = unrecorded_pids out dry_run stack name w in
          let b = int_lt (pos 0) s.pid || not (length pids == 0) in
          and_then-Keeps saved_of (each (stop_fn out dry_run) pids)
            (λ _. return (mark out dry_run store name s b))
            (each-Keeps saved_of (stop_fn out dry_run) pids (stop_fn-Keeps dry_run))
            (λ _. λ w. refl) w

  stop_vms-Keeps :
      (dry_run : Bool) (stack : Text) (names : List Text) (store : Store)
      → KeepsFiles (stop_vms out dry_run stack store names)
  unfolding stop_vms
  stop_vms-Keeps dry_run stack [] store = λ w. refl
  stop_vms-Keeps dry_run stack (name ∷ names) store =
      and_then-Keeps saved_of (stop_vm out dry_run stack store name (lookup name store.services))
        (λ store'. stop_vms out dry_run stack store' names)
        (stop_vm-Keeps dry_run stack name store (lookup name store.services))
        (λ store'. stop_vms-Keeps dry_run stack names store')

  remove_services-Keeps :
      (dry_run : Bool) (stack : Text) (names : List Text) (store : Store)
      → KeepsFiles (remove_services out dry_run stack store names)
  unfolding remove_services remove_service remove_image remove
  remove_services-Keeps dry_run stack [] store = λ w. refl
  remove_services-Keeps dry_run stack (name ∷ names) store =
      and_then-Keeps saved_of (remove_service out dry_run stack store name)
        (λ store'. remove_services out dry_run stack store' names)
        (and_then-Keeps saved_of
          (if dry_run
            then return tt
            else each (remove_image out stack) (volumes_of (lookup name store.services)))
          (λ _. return (record store { services = erase name store.services }))
          (if-Keeps saved_of dry_run (return tt)
            (each (remove_image out stack) (volumes_of (lookup name store.services))) (λ w. refl)
            (each-Keeps saved_of (remove_image out stack) (volumes_of (lookup name store.services))
              λ v w.
                asked-saved (out.remove w (volume_image_path out (dir out stack) v)) (record w {
                  removed = w.removed ++ volume_image_path out (dir out stack) v ∷ [];
                })))
          (λ _. λ w. refl))
        (λ store'. remove_services-Keeps dry_run stack names store')

  save-IsAllOrNothing :
      (stack : Text) (store : Store) (w : World) → IsAllOrNothing stack w (save out stack store w)
  unfolding save
  save-IsAllOrNothing stack store w = elim (Option-cases (out.save w stack)) [
    | inl e ↦ rw (e, save) (inl (refl, (store, refl)))
    | inr (x, e) ↦ rw (e, save) (inr (_, refl, refl))
  ]

  -- A loop that keeps the state files, and then a save.
  then_save :
      (stack : Text) (edit : Store → Store) (r : Result PurgeError Store × World) (w : World)
      → r.1.saved ≡ w.saved
      → IsAllOrNothing stack w (continue r (λ store'. save out stack (edit store')))
  unfolding continue
  then_save stack edit (err e, u) w k = inr (e, refl, k)
  then_save stack edit (ok store, u) w k = elim (save-IsAllOrNothing stack (edit store) u) [
    | inl (x, (s, q)) ↦ inl (x, (s, q ∙ rw k refl))
    | inr (x, y, q) ↦ inr (x, y, q ∙ k)
  ]

  -- A purge of a stack's VMs that fails, at a process that does not stop or at the save, leaves every
  -- state file as it was, so that no pid is lost; one that succeeds writes this stack's file only.
  pub stop_stack_vms-IsAllOrNothing :
      (stack : Text) (store : Store) (w : World)
      → IsAllOrNothing stack w (stop_stack_vms out false stack store w)
  unfolding stop_stack_vms and_then
  stop_stack_vms-IsAllOrNothing stack store w =
      then_save stack (λ store'. store')
        (stop_vms out false stack store (sort_texts (keys store.services)) w) w
        (stop_vms-Keeps false stack (sort_texts (keys store.services)) store w)

  -- So does a purge of its volumes.
  pub remove_all-IsAllOrNothing :
      (stack : Text) (store : Store) (w : World)
      → IsAllOrNothing stack w (remove_all out false stack store w)
  unfolding remove_all and_then
  remove_all-IsAllOrNothing stack store w =
      then_save stack (λ store'. record store' { provisioned = [] })
        (remove_services out false stack store (sort_texts (keys store.services)) w) w
        (remove_services-Keeps false stack (sort_texts (keys store.services)) store w)
