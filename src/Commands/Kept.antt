-- ===== src/Commands/Kept.antt =====
-- What of internal/cmd/up.go and internal/cmd/down.go leaves the state file as it is.
use microbe.Base.{
  refl, Bool, ◌==◌, ℤ, pos, ok, err, Result, Option, some, none, [], ◌∷◌, ◌++◌, Text, length,
  return, and_then, Keeps, and_then-Keeps, if-Keeps,
}
use microbe.Config.Schema.{Compose}
use microbe.Hostnet.Prefix.{AddrError, Prefix}
use microbe.Hostnet.Plan.{Source, Lock, NetworkPlan, plan}
use microbe.Lifecycle.State.{Store}
use microbe.Lifecycle.Specs.{SpecError}
use microbe.Commands.World.{
  Call, load_lock, save_lock, World, Outside, Command, answered, ask, ask_unless, lift_addr,
  lift_port, ensured, with_prefix, save_lock_file, resolve_plan, stack_of, resolve_stack,
}

abbrev pub saved_of : World → Store
saved_of w = w.saved

-- The action leaves the state file as it is, whether it succeeds or not.
abbrev pub KeepsFile : {A : Type 0} → Command A → Type 0
KeepsFile m = Keeps saved_of m

pub lift_addr-Keeps : {A : Type 0} (r : Result AddrError A) → KeepsFile (lift_addr r)
unfolding lift_addr
lift_addr-Keeps (ok a) w = refl
lift_addr-Keeps (err e) w = refl

pub lift_port-Keeps : {A : Type 0} (r : Result SpecError A) → KeepsFile (lift_port r)
unfolding lift_port
lift_port-Keeps (ok a) w = refl
lift_port-Keeps (err e) w = refl

answered-Keeps : (r : Result Text ℤ) → KeepsFile (answered r)
unfolding answered
answered-Keeps (ok a) w = refl
answered-Keeps (err e) w = refl

ensured-Keeps : (r : Result Text Text) → KeepsFile (ensured r)
unfolding ensured
ensured-Keeps (ok a) w = refl
ensured-Keeps (err e) w = refl

module _ (out : Outside) where
  pub ask-Keeps : (call : Call) → KeepsFile (ask out call)
  unfolding ask
  ask-Keeps call w = answered-Keeps (out.answer w call) (record w { calls = w.calls ++ call ∷ [] })

  pub ask_unless-Keeps : (dry_run : Bool) (call : Call) → KeepsFile (ask_unless out dry_run call)
  unfolding ask_unless
  ask_unless-Keeps dry_run call =
      if-Keeps saved_of dry_run (return (pos 0)) (ask out call) (λ w. refl) (ask-Keeps call)

  with_prefix-Keeps : (lock : Lock) → KeepsFile (with_prefix out lock)
  unfolding with_prefix
  with_prefix-Keeps lock w =
      if-Keeps saved_of (length lock.prefix == 0)
        (and_then (ensured (out.prefix w)) (λ prefix. return (record lock { prefix = prefix })))
        (return lock)
        (and_then-Keeps saved_of (ensured (out.prefix w))
          (λ prefix. return (record lock { prefix = prefix })) (ensured-Keeps (out.prefix w))
          (λ prefix u. refl))
        (λ u. refl) w

  save_lock_file-Keeps : (lock : Lock) → KeepsFile (save_lock_file out lock)
  unfolding save_lock_file
  save_lock_file-Keeps lock =
      and_then-Keeps saved_of (ask out save_lock) (λ n w. (ok n, record w { lock = lock }))
        (ask-Keeps save_lock) (λ n w. refl)

  -- The network plan changes the lock, and not the state file.
  pub resolve_stack-Keeps :
      (sha256 : Text → Text) (source : Source) (cfg : Compose)
      → KeepsFile (resolve_stack out sha256 source cfg)
  unfolding resolve_stack resolve_plan stack_of
  resolve_stack-Keeps sha256 source cfg =
      and_then-Keeps saved_of (resolve_plan out source cfg)
        (λ resolved.
          stack_of sha256 source.print_addr cfg resolved.0 resolved.1
            (source.parse_prefix resolved.1))
        (and_then-Keeps saved_of (ask out load_lock)
          (λ _ w.
            and_then (with_prefix out w.lock)
              (λ lock. and_then (lift_addr (plan source cfg lock)) λ planned.
                and_then (save_lock_file out planned.1) λ _. return (planned.0, planned.1.prefix))
              w)
          (ask-Keeps load_lock)
          λ _ w.
            and_then-Keeps saved_of (with_prefix out w.lock)
              (λ lock. and_then (lift_addr (plan source cfg lock)) λ planned.
                and_then (save_lock_file out planned.1) λ _. return (planned.0, planned.1.prefix))
              (with_prefix-Keeps w.lock)
              (λ lock.
                and_then-Keeps saved_of (lift_addr (plan source cfg lock))
                  (λ planned.
                    and_then (save_lock_file out planned.1)
                      λ _. return (planned.0, planned.1.prefix))
                  (lift_addr-Keeps (plan source cfg lock))
                  λ planned.
                    and_then-Keeps saved_of (save_lock_file out planned.1)
                      (λ _. return (planned.0, planned.1.prefix)) (save_lock_file-Keeps planned.1)
                      (λ _ u. refl))
              w)
        (λ resolved. stack_of-Keeps resolved.0 resolved.1 (source.parse_prefix resolved.1))
    where
      stack_of-Keeps :
          (p : NetworkPlan) (prefix : Text) (q : Option Prefix)
          → KeepsFile (stack_of sha256 source.print_addr cfg p prefix q)
      stack_of-Keeps p prefix none w = refl
      stack_of-Keeps p prefix (some q) w = refl
