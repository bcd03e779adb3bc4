-- ===== src/Purge/Vms.antt =====
-- `stopStackVMs` of internal/cmd/purge.go.
use microbe.Base.{
  Bool, not, ◌&&◌, ◌||◌, ℤ, pos, int_lt, atoi, Option, none, some, List, [], ◌∷◌, ◌++◌, Text, codes,
  length, has_prefix, lookup, insert, keys, if◌then◌else◌, ◌==◌, return, and_then, each, sort_texts,
}
use microbe.Lifecycle.State.{ServiceState, Store}
use microbe.Lifecycle.Statuses.{status_stopped}
use microbe.Lifecycle.Reconcile.{answers}
use microbe.Purge.World.{World, Outside, Purge, stop, save}

-- `strings.Contains`
unfoldable pub has_substring : Text → Text → Bool
has_substring [] sub = has_prefix [] sub
has_substring (c ∷ cs) sub = has_prefix (c ∷ cs) sub || has_substring cs sub

-- `apiSocketProcMatch`
unfoldable pub api_socket_proc_match : Text → Text → Bool
unfolding has_substring
api_socket_proc_match cmdline sock_base =
    has_substring cmdline (codes "cloud-hypervisor")
    && (has_substring cmdline (codes "--api-socket") && has_substring cmdline sock_base)

-- `strings.ReplaceAll` of NUL and newline by a space.
unfoldable pub spaced : Text → Text
spaced [] = []
spaced (c ∷ cs) = (if c == 0 || c == 10 then 32 else c) ∷ spaced cs

abbrev pub pid_if : Text → Option ℤ → Option Text → List ℤ
pid_if sock_base (some pid) (some cmd) =
    if not (length cmd == 0) && api_socket_proc_match (spaced cmd) sock_base then pid ∷ [] else []
pid_if sock_base _ _ = []

-- `pidsForAPISocket`, over the directories of /proc with the command lines that can be read.
unfoldable pub pids_for_api_socket : List (Text × Option Text) → Text → List ℤ
unfolding api_socket_proc_match spaced
pids_for_api_socket [] sock_base = []
pids_for_api_socket ((name, cmdline) ∷ procs) sock_base =
    pid_if sock_base (atoi name) cmdline ++ pids_for_api_socket procs sock_base

-- The base name of `vmSocketPath`.
abbrev pub socket_base : Text → Text
socket_base svc = svc ++ codes ".sock"

abbrev pub stopped_state : ServiceState → ServiceState
stopped_state s = record s { pid = pos 0; virtiofsd_pid = pos 0; status = status_stopped }

module _ (out : Outside) (dry_run : Bool) where
  -- `opts.stopFn`
  unfoldable pub stop_fn : ℤ → Purge (Unit {0})
  unfolding stop
  stop_fn pid = if dry_run then return tt else stop out pid

  -- The VM and the virtiofsd that are recorded.
  unfoldable pub stop_recorded : ServiceState → Purge (Unit {0})
  unfolding stop_fn
  stop_recorded s =
      if int_lt (pos 0) s.pid
      then and_then (stop_fn s.pid)
          (λ _. if int_lt (pos 0) s.virtiofsd_pid then stop_fn s.virtiofsd_pid else return tt)
      else return tt

  -- The processes that hold the socket of a VM that answers.
  unfoldable pub unrecorded_pids : Text → Text → World → List ℤ
  unfolding pids_for_api_socket answers
  unrecorded_pids stack name w =
      if answers (out.vm_state w stack name)
      then pids_for_api_socket (out.processes w) (socket_base name)
      else []

  unfoldable pub mark : Store → Text → ServiceState → Bool → Store
  mark store name s stopped =
      if stopped && not dry_run
      then record store { services = insert name (stopped_state s) store.services }
      else store

  -- The part of a round behind the recorded processes.
  unfoldable pub stop_unrecorded : Text → Store → Text → ServiceState → Purge Store
  unfolding unrecorded_pids stop_fn mark
  stop_unrecorded stack store name s w =
      and_then (each stop_fn (unrecorded_pids stack name w))
        (λ _. return (
          mark store name s
            (int_lt (pos 0) s.pid || not (length (unrecorded_pids stack name w) == 0))))
        w

  -- One round of the loop of `stopStackVMs`; the names are those of the store's services. The error of
  -- `cleanRunDir` is dropped.
  unfoldable pub stop_vm : Text → Store → Text → Option ServiceState → Purge Store
  unfolding stop_recorded stop_unrecorded
  stop_vm stack store name none = return store
  stop_vm stack store name (some s) =
      and_then (stop_recorded s) (λ _. stop_unrecorded stack store name s)

  unfoldable pub stop_vms : Text → Store → List Text → Purge Store
  unfolding stop_vm
  stop_vms stack store [] = return store
  stop_vms stack store (name ∷ names) =
      and_then (stop_vm stack store name (lookup name store.services))
        λ store'. stop_vms stack store' names

  -- `stopStackVMs`
  unfoldable pub stop_stack_vms : Text → Store → Purge (Unit {0})
  unfolding stop_vms save
  stop_stack_vms stack store =
      and_then (stop_vms stack store (sort_texts (keys store.services)))
        λ store'. if dry_run then return tt else save out stack store'
