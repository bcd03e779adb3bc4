-- ===== src/Purge/World.antt =====
-- What internal/cmd/purge.go changes on the host, and what it asks of it; `state.Load` and `Save`, and
-- `confirmStdin`.
use microbe.Base.{
  ℕ, ◌||◌, Bool, false, ℤ, Option, none, some, List, [], ◌∷◌, ◌++◌, Text, codes, text_eq, length,
  Map, lookup, insert, or_else, if◌then◌else◌, ◌==◌, trim_space, Result, ok, err, Action, return,
  and_then,
}
use microbe.Lifecycle.State.{Store, empty_store}
use microbe.Lifecycle.Statuses.{to_lower}
use microbe.Lifecycle.Reconcile.{VmState}

-- The state files by the names of the stacks' directories, and what was asked for so far: the pids to
-- stop, the links to delete and the files to remove, each in turn. `input` holds what the next reads of
-- the standard input return, chunk by chunk.
pub record World : Type 0 where
  pub saved : Map Store
  pub stopped : List ℤ
  pub swept : List Text
  pub removed : List Text
  pub input : List Text

-- The host's answers. They may depend on all that was done before; `none` is success.
pub record Outside : Type 0 where
  pub stop : World → ℤ → Option Text
  pub teardown_links : World → List Text → Option Text
  pub remove : World → Text → Option Text
  pub save : World → Text → Option Text
  pub load : World → Text → Option Text
  pub stacks : World → Result Text (List Text)
  pub vm_state : World → Text → Text → VmState
  pub processes : World → List (Text × Option Text)
  pub join : Text → Text → Text

pub data PurgeError : Type 0 where
  outside : Text → PurgeError
  no_service_in_state : Text → PurgeError

abbrev pub Purge : Type 0 → Type 0
Purge A = Action World PurgeError A

-- `if err := f(); err != nil { return err }` for a call that records what it was asked.
unfoldable pub asked : Option Text → World → Result PurgeError (Unit {0}) × World
asked none w = (ok tt, w)
asked (some e) w = (err (outside e), w)

-- `datadir.Root`, and `Dir`
abbrev pub root : Text
root = codes "/var/lib/microbe"

module _ (out : Outside) where
  -- The volumes' images: `VolumeImagePath` of internal/runtime/runner.go.
  unfoldable pub volume_image_path : Text → Text → Text
  volume_image_path base name = out.join (out.join base (codes "volumes")) (name ++ codes ".qcow2")

  unfoldable pub dir : Text → Text
  dir stack = out.join root stack

  unfoldable pub stop : ℤ → Purge (Unit {0})
  unfolding asked
  stop pid w = asked (out.stop w pid) (record w { stopped = w.stopped ++ pid ∷ [] })

  -- `sweepOrphanLinks`
  unfoldable pub teardown_links : List Text → Purge (Unit {0})
  unfolding asked
  teardown_links links w =
      asked (out.teardown_links w links) (record w { swept = w.swept ++ links })

  -- `os.Remove`, whose error on a file that is not there is no error.
  unfoldable pub remove : Text → Purge (Unit {0})
  unfolding asked
  remove path w = asked (out.remove w path) (record w { removed = w.removed ++ path ∷ [] })

  -- `store.Save`: the file is renamed into place, so a failure leaves the one of before.
  unfoldable pub save : Text → Store → Purge (Unit {0})
  save stack store w = elim (out.save w stack) [
    | none ↦ (ok tt, record w { saved = insert stack store w.saved })
    | some e ↦ (err (outside e), w)
  ]

  -- `state.Load`
  unfoldable pub load : Text → Purge Store
  load stack w = elim (out.load w stack) [
    | none ↦ (ok (or_else (lookup stack w.saved) empty_store), w)
    | some e ↦ (err (outside e), w)
  ]

  unfoldable pub load_each : List Text → Purge (Map Store)
  unfolding load
  load_each [] = return []
  load_each (name ∷ names) = and_then (load name) λ store.
      and_then (load_each names)
        λ rest. if length store.stack == 0 then return rest else return ((name, store) ∷ rest)

  -- `loadAllStores`, over the directories of the root; a root that is not there has none.
  unfoldable pub load_all_stores : Purge (Map Store)
  unfolding load_each
  load_all_stores w = elim (out.stacks w) [
    | ok names ↦ load_each names w
    | err e ↦ (err (outside e), w)
  ]

abbrev newline : ℕ
newline = 10

has_newline : Text → Bool
has_newline [] = false
has_newline (c ∷ cs) = c == newline || has_newline cs

until_newline : Text → Text
until_newline [] = []
until_newline (c ∷ cs) = let rest = until_newline cs in if c == newline then c ∷ [] else c ∷ rest

-- `bufio.NewReader(stdin).ReadString('\n')`: chunks are read until one has a newline. What it holds
-- behind that stays in the reader, which is dropped. The second component is what stdin still has.
unfoldable pub read_string : List Text → Text × List Text
unfolding has_newline until_newline
read_string [] = ([], [])
read_string (chunk ∷ chunks) =
    let more = read_string chunks in
    if has_newline chunk then (until_newline chunk, chunks) else (chunk ++ more.0, more.1)

unfoldable pub is_yes : Text → Bool
unfolding trim_space to_lower
is_yes line =
    text_eq (to_lower (trim_space line)) (codes "y")
    || text_eq (to_lower (trim_space line)) (codes "yes")

-- `confirmStdin`, of a standard input whose reads fail at its end only.
unfoldable pub confirm_stdin : Purge Bool
unfolding read_string is_yes
confirm_stdin w =
    (ok (is_yes (read_string w.input).0), record w { input = (read_string w.input).1 })
