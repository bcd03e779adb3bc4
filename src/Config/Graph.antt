-- ===== src/Config/Graph.antt =====
-- internal/config/validate.go: `validateDependsOn` and `detectCycle`, a depth-first search that
-- colours the services.
pub mod Visit
pub mod Cycles
pub mod Decides
pub mod Declared
use microbe.Base.{
  ℕ, zero, suc, ◌≡◌, Bool, true, false, Option, none, some, List, [], ◌∷◌, ◌++◌, Text, text_eq,
  length, contains, Map, lookup, insert, keys, has, or_else, if◌then◌else◌, Result, ok, err, ◌>>=◌,
  ◌>>◌, reject_if, not, fold_result, each_result,
}
use microbe.Config.Schema.{Service}
use microbe.Config.Errors.{
  ConfigError, depends_on_itself, unknown_depends_on, depends_on_cycle, cycle_out_of_fuel,
}

pub data Color : Type 0 where
  white grey black : Color

-- `map[string]int`: a name that is not a key is white.
abbrev pub Colors : Type 0
Colors = Map Color

abbrev pub color_of : Colors → Text → Color
color_of colors name = or_else (lookup name colors) white

-- `c.Services[name].DependsOn`: none of a name that is not declared.
abbrev depends_on_of : Option Service → List Text
depends_on_of none = []
depends_on_of (some s) = s.depends_on

unfoldable pub deps_of : Map Service → Text → List Text
deps_of services name = depends_on_of (lookup name services)

-- The cases of the `switch` on a dependency's colour; `visit` is the recursive call.
unfoldable pub visit_dep :
    (Text → List Text → Colors → Result ConfigError Colors)
    → Text
    → List Text
    → Text
    → Colors
    → Color
    → Result ConfigError Colors
visit_dep visit name path dep colors grey = err (depends_on_cycle (path ++ name ∷ []))
visit_dep visit name path dep colors white = visit dep (path ++ name ∷ []) colors
visit_dep visit name path dep colors black = ok colors

unfoldable pub visit_deps :
    (Text → List Text → Colors → Result ConfigError Colors)
    → Text
    → List Text
    → List Text
    → Colors
    → Result ConfigError Colors
visit_deps visit name path [] colors = ok colors
visit_deps visit name path (dep ∷ deps) colors =
    visit_dep visit name path dep colors (color_of colors dep) >>= λ colors'.
    visit_deps visit name path deps colors'

-- The closure `visit`, on fuel: a nested call colours one more service.
unfoldable pub visit : Map Service → ℕ → Text → List Text → Colors → Result ConfigError Colors
visit services zero name path colors = err cycle_out_of_fuel
visit services (suc fuel) name path colors =
    visit_deps (visit services fuel) name path (deps_of services name) (insert name grey colors)
    >>= λ colors'. ok (insert name black colors')

unfoldable pub visit_root : Map Service → ℕ → Colors → Text → Color → Result ConfigError Colors
visit_root services fuel colors name white = visit services fuel name [] colors
visit_root services fuel colors name grey = ok colors
visit_root services fuel colors name black = ok colors

unfoldable pub visit_roots : Map Service → ℕ → Colors → List Text → Result ConfigError Colors
visit_roots services fuel colors [] = ok colors
visit_roots services fuel colors (name ∷ names) =
    visit_root services fuel colors name (color_of colors name) >>= λ colors'.
    visit_roots services fuel colors' names

unfoldable pub detect_cycle : Map Service → Result ConfigError (Unit {0})
detect_cycle services =
    visit_roots services (length services) [] (keys services) >>= λ colors. ok tt

-- The two checks on one entry of a service's dependsOn.
unfoldable pub check_dep : Map Service → Text → Text → Result ConfigError (Unit {0})
check_dep services name dep =
    reject_if (text_eq dep name) (depends_on_itself name)
    >> reject_if (not (has dep services)) (unknown_depends_on name dep)

unfoldable pub validate_depends_on : Map Service → Result ConfigError (Unit {0})
validate_depends_on services =
    each_result
      (λ (entry : Text × Service). each_result (check_dep services entry.0) entry.1.depends_on)
      services
    >> detect_cycle services

-- `d` stands in the dependsOn of `n`.
abbrev pub DependsOn : Map Service → Text → Text → Type 0
DependsOn services d n = contains d (deps_of services n) ≡ true

-- A chain of one or more dependencies from `n` to `d`.
pub data Chain (services : Map Service) : Text → Text → Type 0 where
  direct : {n d : Text} → DependsOn services d n → Chain services n d
  via : {n m d : Text} → Chain services n m → DependsOn services d m → Chain services n d
