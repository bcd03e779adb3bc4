-- ===== src/Purge/Volumes.antt =====
-- `removeVolumesForStore` of internal/cmd/purge.go and the loop of `rmRun` of internal/cmd/rm.go. The
-- removal of snapshots, whose error is dropped, is left out.
use microbe.Base.{
  Bool, true, false, Option, none, some, List, [], ◌∷◌, Text, length, lookup, keys, erase,
  if◌then◌else◌, ◌==◌, return, fail, and_then, each, sort_texts,
}
use microbe.Lifecycle.State.{ServiceState, Store}
use microbe.Purge.World.{
  Outside, Purge, no_service_in_state, remove, save, load, volume_image_path, dir, confirm_stdin,
}

abbrev pub volumes_of : Option ServiceState → List Text
volumes_of none = []
volumes_of (some s) = s.volumes

module _ (out : Outside) where
  unfoldable pub remove_image : Text → Text → Purge (Unit {0})
  unfolding remove volume_image_path dir
  remove_image stack volume = remove out (volume_image_path out (dir out stack) volume)

  -- One round of either loop behind the lookup: the images, then the record.
  unfoldable pub remove_service : Bool → Text → Store → Text → Purge Store
  unfolding remove_image
  remove_service dry_run stack store name =
      and_then
        (if dry_run
          then return tt
          else each (remove_image stack) (volumes_of (lookup name store.services)))
        (λ _. return (record store { services = erase name store.services }))

  unfoldable pub remove_services : Bool → Text → Store → List Text → Purge Store
  unfolding remove_service
  remove_services dry_run stack store [] = return store
  remove_services dry_run stack store (name ∷ names) =
      and_then (remove_service dry_run stack store name)
        λ store'. remove_services dry_run stack store' names

  -- `removeVolumesForStore` behind its prompt.
  unfoldable pub remove_all : Bool → Text → Store → Purge (Unit {0})
  unfolding remove_services save
  remove_all dry_run stack store =
      and_then (remove_services dry_run stack store (sort_texts (keys store.services)))
        λ store'. if dry_run then return tt else save out stack (record store' { provisioned = [] })

  -- `removeVolumesForStore`
  unfoldable pub remove_volumes_for_store : Bool → Bool → Text → Store → Purge (Unit {0})
  unfolding remove_all
  remove_volumes_for_store dry_run force stack store =
      if length store.services == 0
      then return tt
      else if force
      then remove_all dry_run stack store
      else and_then confirm_stdin
          (λ yes'. if yes' then remove_all dry_run stack store else return tt)

  -- `if !ok { return ... }`
  unfoldable pub in_state : Option ServiceState → Text → Purge (Unit {0})
  in_state none name = fail (no_service_in_state name)
  in_state (some s) name = return tt

  -- The loop of `rmRun`.
  unfoldable pub rm_services : Text → Store → List Text → Purge Store
  unfolding remove_service
  rm_services stack store [] = return store
  rm_services stack store (name ∷ names) =
      and_then (in_state (lookup name store.services) name) λ _.
        and_then (remove_service false stack store name) λ store'. rm_services stack store' names

  -- `rmRun`, of a document that was loaded; `args` are the services that were named.
  unfoldable pub rm_loaded : Bool → Text → List Text → Store → Purge (Unit {0})
  unfolding rm_services save
  rm_loaded force stack selected store =
      if length selected == 0
      then return tt
      else and_then (if force then return true else confirm_stdin) (λ yes'.
        if yes'
        then and_then (rm_services stack store selected) (λ store'. save out stack store')
        else return tt)

  unfoldable pub rm_run : Bool → Text → List Text → Purge (Unit {0})
  unfolding rm_loaded load
  rm_run force stack args = and_then (load out stack) λ store.
      rm_loaded force stack (if length args == 0 then sort_texts (keys store.services) else args)
        store
