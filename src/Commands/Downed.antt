-- ===== src/Commands/Downed.antt =====
-- The state file that `downRun` of internal/cmd/down.go leaves.
use microbe.Base.{
  ◌≡◌, sym, ap, subst, ◌∙◌, Bool, true, false, ◌||◌, ◌==◌, ℤ, ok, ok_inj, Option, some, none, List,
  Text, codes, pos, length, contains, lookup, keys, sort_texts, if◌then◌else◌, arith, return,
  and_then, and_then-eq-ok,
}
use microbe.Config.Schema.{Compose}
use microbe.Hostnet.Plan.{Source}
use microbe.Lifecycle.Stack.{Stack}
use microbe.Lifecycle.State.{ServiceState, Store}
use microbe.Commands.World.{load_state, World, Outside, ask, resolve_stack, save}
use microbe.Commands.Down.{
  drop_stale, down_services, down_ports, remove_volumes_loop, teardown_stack, record_provisioned,
  finish_down, down_selected, down_run,
}
use microbe.Commands.Kept.{ask-Keeps}
use microbe.Commands.Rounds.{
  taken, unless_stale, lookup-drop_stale, lookup-down_services, lookup-remove_volumes_loop,
  services-down_ports, saved-save,
}

module _ (out : Outside) where
  -- What a down leaves of a service that is part of it.
  abbrev pub left_of : Bool → Option ServiceState → Option ServiceState
  left_of remove_volumes none = none
  left_of remove_volumes (some s) =
      if remove_volumes || s.stale
      then none
      else some (record s { status = codes "stopped"; pid = pos 0; virtiofsd_pid = pos 0 })

  left_by :
      (remove_volumes : Bool) (o a b c : Option ServiceState) (selected : Bool)
      → a ≡ (if selected then taken o else o)
      → b ≡ (if remove_volumes then (if selected then none else a) else a)
      → c ≡ (if selected then unless_stale b else b)
      → c ≡ (if selected then left_of remove_volumes o else o)
  left_by remove_volumes none a b c selected p q r = ground (arith, p, q, r)
  left_by remove_volumes (some s) a b c selected p q r = ground (arith, p, q, r)

  module _ (sha256 : Text → Text) (uid gid : ℤ) (cfg : Compose) where
    finish_down-saved :
        (remove_volumes : Bool) (j : Text) (st : Stack) (store : Store) (selected : List Text)
        (w w' : World) (n : ℤ)
        → finish_down out false sha256 uid gid cfg remove_volumes st store selected w ≡ (ok n, w')
        → (b : Option ServiceState) × (b ≡ (
            if remove_volumes
            then (if contains j selected then none else lookup j store.services)
            else lookup j store.services))
          × (lookup j w'.saved.services ≡ (if contains j selected then unless_stale b else b))
    unfolding finish_down record_provisioned
    finish_down-saved remove_volumes j st store selected w w' n h =
        let kept = record_provisioned out false sha256 uid gid cfg st store selected in
        let (a, u, e1, e2) =
          and_then-eq-ok (teardown_stack out false sha256 uid gid cfg st store selected)
            (λ _.
              and_then
                (if remove_volumes
                  then remove_volumes_loop out false kept selected
                  else return kept)
                λ store'. save out (drop_stale store' selected))
            w h in
        let (t, v, e3, e4) =
          and_then-eq-ok
            (if remove_volumes then remove_volumes_loop out false kept selected else return kept)
            (λ store'. save out (drop_stale store' selected)) u e2 in
        (
          lookup j t.services,
          removed remove_volumes t u v e3,
          ap (λ (x : Store). lookup j x.services) (saved-save out (drop_stale t selected) v w' n e4)
              ∙ lookup-drop_stale j selected t,
        )
      where
        removed :
            (b : Bool) (t : Store) (u v : World)
            → (if b
                  then remove_volumes_loop out false
                      (record_provisioned out false sha256 uid gid cfg st store selected)
                      selected
                  else return (record_provisioned out false sha256 uid gid cfg st store selected))
                u
              ≡ (ok t, v)
            → lookup j t.services ≡ (
                if b
                then (if contains j selected then none else lookup j store.services)
                else lookup j store.services)
        removed true t u v e =
            lookup-remove_volumes_loop out j selected
              (record_provisioned out false sha256 uid gid cfg st store selected) t u v e
        removed false t u v e =
            ap (λ (x : Store). lookup j x.services) (sym (ok_inj (ap (λ x. x.0) e)))

    down_selected-saved :
        (source : Source) (remove_volumes : Bool) (j : Text) (store : Store) (selected : List Text)
        (w w' : World) (n : ℤ)
        → down_selected out false sha256 uid gid cfg source remove_volumes store selected w
          ≡ (ok n, w')
        → lookup j w'.saved.services ≡ (
            if contains j selected
            then left_of remove_volumes (lookup j store.services)
            else lookup j store.services)
    unfolding down_selected
    down_selected-saved source remove_volumes j store selected w w' n h =
        let (t1, w1, e1, f1) =
          and_then-eq-ok (down_services out false store selected)
            (λ store1. and_then (down_ports out false store1) λ store2.
              and_then (resolve_stack out sha256 source cfg)
                λ st. finish_down out false sha256 uid gid cfg remove_volumes st store2 selected)
            w h in
        let (t2, w2, e2, f2) =
          and_then-eq-ok (down_ports out false t1)
            (λ store2.
              and_then (resolve_stack out sha256 source cfg)
                λ st. finish_down out false sha256 uid gid cfg remove_volumes st store2 selected)
            w1 f1 in
        let (st, w3, e3, f3) =
          and_then-eq-ok (resolve_stack out sha256 source cfg)
            (λ st. finish_down out false sha256 uid gid cfg remove_volumes st t2 selected) w2 f2 in
        let (b, p, q) = finish_down-saved remove_volumes j st t2 selected w3 w' n f3 in
        left_by remove_volumes (lookup j store.services) (lookup j t2.services) b
          (lookup j w'.saved.services) (contains j selected)
          (ap (λ m. lookup j m) (services-down_ports out t1 t2 w1 w2 e2)
            ∙ lookup-down_services out j selected store t1 w w1 e1)
          p q

    -- Where downRun succeeds and is no dry run, the state file records each service of the run as
    -- stopped, with no pid and all else as it was, unless it was stale or the volumes were to be
    -- removed: then it is dropped. A service that is not part of the run is recorded as before.
    -- Without arguments the run is of every recorded service.
    pub down_run-saved :
        (source : Source) (remove_volumes : Bool) (args : List Text) (j : Text) (w w' : World)
        (n : ℤ)
        → down_run out false sha256 uid gid cfg source remove_volumes args w ≡ (ok n, w')
        → lookup j w'.saved.services ≡ (
            if contains j (if length args == 0 then sort_texts (keys w.saved.services) else args)
            then left_of remove_volumes (lookup j w.saved.services)
            else lookup j w.saved.services)
    unfolding down_run
    down_run-saved source remove_volumes args j w w' n h =
        let (a, u, e, f) =
          and_then-eq-ok (ask out load_state)
            (λ _ v.
              down_selected out false sha256 uid gid cfg source remove_volumes v.saved
                (if length args == 0 then sort_texts (keys v.saved.services) else args) v)
            w h in
        let same : u.saved ≡ w.saved = ap (λ x. x.1.saved) (sym e) ∙ ask-Keeps out load_state w in
        subst
          (λ (store : Store). lookup j w'.saved.services ≡ (
            if contains j (if length args == 0 then sort_texts (keys store.services) else args)
            then left_of remove_volumes (lookup j store.services)
            else lookup j store.services))
          same
          (down_selected-saved source remove_volumes j u.saved
            (if length args == 0 then sort_texts (keys u.saved.services) else args) u w' n f)
