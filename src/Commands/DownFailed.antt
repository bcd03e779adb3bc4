-- ===== src/Commands/DownFailed.antt =====
-- Errors of `downRun` of internal/cmd/down.go: the state file changes at the end of a run, or not.
use microbe.Base.{
  ◌≡◌, refl, ◌∙◌, ◌⊎◌, Bool, false, inl, inr, ◌==◌, ℤ, ok, err, Result, Result-cases, List, Text,
  length, keys, sort_texts, if◌then◌else◌, return, and_then, continue, if-Keeps,
}
use microbe.Config.Schema.{Compose}
use microbe.Hostnet.Plan.{Source}
use microbe.Lifecycle.Stack.{Stack}
use microbe.Lifecycle.State.{Store}
use microbe.Commands.World.{
  load_state, save_state, World, Outside, Command, CommandError, outside, answered, ask,
  resolve_stack, save,
}
use microbe.Commands.Down.{
  down_services, down_ports, remove_volumes_loop, drop_stale, teardown_stack, record_provisioned,
  finish_down, down_selected, down_run,
}
use microbe.Commands.Kept.{saved_of, KeepsFile, ask-Keeps, resolve_stack-Keeps}
use microbe.Commands.DownKept.{
  down_services-Keeps, down_ports-Keeps, remove_volumes_loop-Keeps, teardown_stack-Keeps,
}

-- A run succeeded, or it failed and the state file is what it was.
abbrev pub IsSavedLast : {A : Type 0} → World → Result CommandError A × World → Type 0
IsSavedLast {A} w (r, w') =
    ((a : A) × (r ≡ ok a)) ⊎ ((e : CommandError) × (r ≡ err e) × (w'.saved ≡ w.saved))

IsSavedLast-and_then :
    {A B : Type 0} (m : Command A) (f : A → Command B) (w : World)
    → KeepsFile m
    → ((a : A) (u : World) → IsSavedLast u (f a u))
    → IsSavedLast w (and_then m f w)
unfolding and_then
IsSavedLast-and_then {A} m f w k l = behind (m w) (k w)
  where
    behind :
        (r : Result CommandError A × World) → r.1.saved ≡ w.saved → IsSavedLast w (continue r f)
    behind (err e, u) q = inr (e, refl, q)
    behind (ok a, u) q = elim (l a u) [ inl h ↦ inl h | inr (e, h, h') ↦ inr (e, h, h' ∙ q) ]

module _ (out : Outside) (sha256 : Text → Text) (uid gid : ℤ) (cfg : Compose) where
  save-IsSavedLast : (store : Store) (w : World) → IsSavedLast w (save out store w)
  unfolding save ask and_then
  save-IsSavedLast store w = elim (Result-cases (out.answer w save_state)) [
    | inl (n, e) ↦ rw (e, answered, continue) (inl (n, refl))
    | inr (x, e) ↦ rw (e, answered, continue) (inr (outside x, refl, refl))
  ]

  finish_down-IsSavedLast :
      (remove_volumes : Bool) (st : Stack) (store : Store) (selected : List Text) (w : World)
      → IsSavedLast w (finish_down out false sha256 uid gid cfg remove_volumes st store selected w)
  unfolding finish_down
  finish_down-IsSavedLast remove_volumes st store selected w =
      let kept = record_provisioned out false sha256 uid gid cfg st store selected in
      IsSavedLast-and_then (teardown_stack out false sha256 uid gid cfg st store selected)
        (λ _.
          and_then
            (if remove_volumes then remove_volumes_loop out false kept selected else return kept)
            λ store'. save out (drop_stale store' selected))
        w (teardown_stack-Keeps out false sha256 uid gid cfg st store selected)
        λ _ u.
          IsSavedLast-and_then
            (if remove_volumes then remove_volumes_loop out false kept selected else return kept)
            (λ store'. save out (drop_stale store' selected)) u
            (if-Keeps saved_of remove_volumes (remove_volumes_loop out false kept selected)
              (return kept) (remove_volumes_loop-Keeps out false selected kept) (λ v. refl))
            λ store'. save-IsSavedLast (drop_stale store' selected)

  -- A downRun that fails, at whatever call, leaves the state file as it was, where it is no dry
  -- run.
  pub down_run-IsSavedLast :
      (source : Source) (remove_volumes : Bool) (args : List Text) (w : World)
      → IsSavedLast w (down_run out false sha256 uid gid cfg source remove_volumes args w)
  unfolding down_run down_selected
  down_run-IsSavedLast source remove_volumes args w =
      IsSavedLast-and_then (ask out load_state)
        (λ _ u.
          down_selected out false sha256 uid gid cfg source remove_volumes u.saved (selected_in u)
            u)
        w (ask-Keeps out load_state)
        λ _ u.
          IsSavedLast-and_then (down_services out false u.saved (selected_in u))
            (λ store1. and_then (down_ports out false store1) λ store2.
              and_then (resolve_stack out sha256 source cfg) λ st.
                finish_down out false sha256 uid gid cfg remove_volumes st store2 (selected_in u))
            u (down_services-Keeps out false (selected_in u) u.saved)
            λ store1 u1.
              IsSavedLast-and_then (down_ports out false store1)
                (λ store2. and_then (resolve_stack out sha256 source cfg) λ st.
                  finish_down out false sha256 uid gid cfg remove_volumes st store2 (selected_in u))
                u1 (down_ports-Keeps out false store1)
                λ store2 u2.
                  IsSavedLast-and_then (resolve_stack out sha256 source cfg)
                    (λ st.
                      finish_down out false sha256 uid gid cfg remove_volumes st store2
                        (selected_in u))
                    u2 (resolve_stack-Keeps out sha256 source cfg)
                    λ st u3. finish_down-IsSavedLast remove_volumes st store2 (selected_in u) u3
    where
      selected_in : World → List Text
      selected_in u = if length args == 0 then sort_texts (keys u.saved.services) else args
