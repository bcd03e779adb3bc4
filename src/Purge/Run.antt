-- ===== src/Purge/Run.antt =====
-- `purgeRun` of internal/cmd/purge.go. A document that is read and validated, with its network plan
-- and the stack's devices, is a parameter: `Target`.
use microbe.Base.{Bool, true, List, [], Text, codes, text_eq, if◌then◌else◌, return, and_then, each}
use microbe.Lifecycle.State.{Store}
use microbe.Purge.World.{Outside, Purge, load, load_all_stores, confirm_stdin}
use microbe.Purge.Sweep.{sweep_orphaned_network_devices}
use microbe.Purge.Vms.{stop_stack_vms}
use microbe.Purge.Volumes.{remove_volumes_for_store}

-- The stack of the compose file: its name, and the devices that the current document names.
pub record Target : Type 0 where
  pub name : Text
  pub current : List Text

-- `purgeOptions`. Reading the document fails or gives the target.
pub record Options : Type 0 where
  pub dry_run : Bool
  pub all : Bool
  pub force : Bool
  pub target : Purge Target

module _ (sha256 : Text → Text) (out : Outside) where
  -- `for stack, store := range stores { ... }`
  unfoldable pub each_store : (Text × Store → Purge (Unit {0})) → Purge (Unit {0})
  unfolding load_all_stores
  each_store body = and_then (load_all_stores out) λ stores. each body stores

  unfoldable pub purge_vms : Options → Purge (Unit {0})
  unfolding each_store stop_stack_vms load
  purge_vms opts =
      if opts.all
      then each_store (λ entry. stop_stack_vms out opts.dry_run entry.0 entry.1)
      else and_then opts.target
          (λ t. and_then (load out t.name) λ store. stop_stack_vms out opts.dry_run t.name store)

  unfoldable pub purge_networks : Options → Purge (Unit {0})
  unfolding each_store sweep_orphaned_network_devices load
  purge_networks opts =
      if opts.all
      then each_store
          (λ entry. sweep_orphaned_network_devices sha256 out opts.dry_run [] entry.1 entry.0)
      else and_then opts.target (λ t.
        and_then (load out t.name)
          λ store. sweep_orphaned_network_devices sha256 out opts.dry_run t.current store t.name)

  unfoldable pub purge_volumes : Options → Purge (Unit {0})
  unfolding each_store remove_volumes_for_store load
  purge_volumes opts =
      if opts.all
      then each_store
          (λ entry. remove_volumes_for_store out opts.dry_run opts.force entry.0 entry.1)
      else and_then opts.target (λ t.
        and_then (load out t.name)
          λ store. remove_volumes_for_store out opts.dry_run opts.force t.name store)

  unfoldable pub purge_everything : Options → Purge (Unit {0})
  unfolding purge_vms purge_networks purge_volumes
  purge_everything opts =
      and_then (purge_vms opts) λ _. and_then (purge_networks opts) λ _. purge_volumes opts

  -- `purgeAll`
  unfoldable pub purge_all : Options → Purge (Unit {0})
  unfolding purge_everything
  purge_all opts =
      and_then (if opts.force then return true else confirm_stdin)
        λ yes'. if yes' then purge_everything (record opts { all = true }) else return tt

  -- `purgeRun`
  unfoldable pub purge_run : Text → Options → Purge (Unit {0})
  unfolding purge_vms purge_networks purge_volumes purge_all
  purge_run target opts =
      if text_eq target (codes "vms")
      then purge_vms opts
      else if text_eq target (codes "networks")
      then purge_networks opts
      else if text_eq target (codes "volumes")
      then purge_volumes opts
      else if text_eq target (codes "all")
      then purge_all opts
      else purge_networks opts
