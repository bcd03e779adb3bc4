-- ===== src/Lifecycle/Order.antt =====
-- `startOrder` of internal/cmd/lifecycle.go: dependencies first.
use microbe.Base.{
  ℕ, zero, suc, List, [], ◌∷◌, ◌++◌, Text, text_eq, length, contains, Map, if◌then◌else◌, Result,
  ok, err, ◌>>=◌,
}
use microbe.Config.Schema.{Service}
use microbe.Config.Graph.{deps_of}

-- The three variables that `visit` changes.
pub record Walk : Type 0 where
  pub visiting : List Text
  pub visited : List Text
  pub order : List Text

pub data OrderError : Type 0 where
  cycle_at : Text → OrderError
  out_of_fuel : OrderError

-- `delete(visiting, name)`
unfoldable pub remove_name : Text → List Text → List Text
remove_name name [] = []
remove_name name (x ∷ xs) =
    let rest = remove_name name xs in if text_eq name x then rest else x ∷ rest

-- The end of `visit`.
abbrev pub finish : Text → Walk → Walk
finish name w = record {
  visiting = remove_name name w.visiting;
  visited = name ∷ w.visited;
  order = w.order ++ name ∷ [];
}

module _ (services : Map Service) (selected : List Text) where
  -- The dependencies that are selected, in turn; `visit` is the recursive call.
  unfoldable pub visit_selected :
      (Text → Walk → Result OrderError Walk) → List Text → Walk → Result OrderError Walk
  visit_selected visit [] w = ok w
  visit_selected visit (dep ∷ deps) w =
      (if contains dep selected then visit dep w else ok w) >>= λ w'. visit_selected visit deps w'

  -- The closure `visit`, on fuel.
  unfoldable pub visit_service : ℕ → Text → Walk → Result OrderError Walk
  visit_service zero name w = err out_of_fuel
  visit_service (suc fuel) name w =
      if contains name w.visited
      then ok w
      else if contains name w.visiting
      then err (cycle_at name)
      else (visit_selected (visit_service fuel) (deps_of services name)
            (record w { visiting = name ∷ w.visiting })
          >>= λ w'. ok (finish name w'))

  unfoldable pub visit_all : ℕ → List Text → Walk → Result OrderError Walk
  visit_all fuel [] w = ok w
  visit_all fuel (name ∷ names) w = visit_service fuel name w >>= λ w'. visit_all fuel names w'

  -- A nested visit is of a selected name that is not being visited, so one round more than there are
  -- selected names is enough.
  unfoldable pub start_order : Result OrderError (List Text)
  start_order =
      visit_all (suc (length selected)) selected
        (record { visiting = []; visited = []; order = [] })
      >>= λ w. ok w.order
