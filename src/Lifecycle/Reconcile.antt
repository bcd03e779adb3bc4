-- ===== src/Lifecycle/Reconcile.antt =====
-- `reconcileVMState` of internal/cmd/ps.go: the recorded state against what the VMs answer.
use microbe.Base.{
  ◌≡◌, refl, Bool, true, false, not, Bool-cases, inl, inr, ℤ, pos, negsuc, int_eq, Option, none,
  some, [], ◌∷◌, Text, codes, text_eq, text_eq_iff, length, Map, lookup, ◌==◌, Result, ok, err,
  if◌then◌else◌, arith,
}
use microbe.Lifecycle.State.{ServiceState, Store}
use microbe.Lifecycle.Statuses.{status_stopped, status_crashed, to_lower}

-- What `vmState` returns for a service: the VM's state, empty where there is no socket, or an error.
abbrev pub VmState : Type 0
VmState = Result Text Text

-- `err == nil && chState != ""`
unfoldable pub answers : VmState → Bool
answers (err e) = false
answers (ok state) = not (length state == 0)

-- The cases of the `switch`.
unfoldable pub with_answer : ServiceState → VmState → ServiceState
with_answer s (err e) = record s { status = status_crashed; pid = pos 0 }
with_answer s (ok state) =
    if length state == 0
    then record s { status = status_stopped; pid = pos 0 }
    else if text_eq state (codes "Running")
    then s
    else record s { status = to_lower state }

unfoldable pub reconcile_service : ServiceState → VmState → ServiceState
unfolding with_answer
reconcile_service s answer = if int_eq s.pid (pos 0) then s else with_answer s answer

-- `vm_state` is `vmState` at the socket of the service of this name.
module _ (vm_state : Text → VmState) where
  unfoldable pub reconcile_services : Map ServiceState → Map ServiceState
  unfolding reconcile_service
  reconcile_services [] = []
  reconcile_services ((name, s) ∷ rest) =
      (name, reconcile_service s (vm_state name)) ∷ reconcile_services rest

  unfoldable pub reconcile_vm_state : Store → Store
  unfolding reconcile_services
  reconcile_vm_state store = record store { services = reconcile_services store.services }

int_eq_zero : (n : ℤ) → int_eq n (pos 0) ≡ true → n ≡ pos 0
int_eq_zero (pos n) h = ground (arith, h)
int_eq_zero (negsuc n) h = absurd (cc h)

with_answer_twice :
    (s : ServiceState) (answer : VmState)
    → reconcile_service (with_answer s answer) answer ≡ with_answer s answer
unfolding reconcile_service with_answer
with_answer_twice s (err e) = refl
with_answer_twice s (ok state) = elim (Bool-cases (length state == 0)) [
  | inl h ↦ rw h refl
  | inr h ↦ ground (arith, h)
]

reconcile_service_twice :
    (s : ServiceState) (answer : VmState)
    → reconcile_service (reconcile_service s answer) answer ≡ reconcile_service s answer
unfolding reconcile_service
reconcile_service_twice s answer = elim (Bool-cases (int_eq s.pid (pos 0))) [
  | inl h ↦ rw h (rw h refl)
  | inr h ↦ rw h (with_answer_twice s answer)
]

reconcile_services_twice :
    (vm_state : Text → VmState) (m : Map ServiceState)
    → reconcile_services vm_state (reconcile_services vm_state m) ≡ reconcile_services vm_state m
unfolding reconcile_services
reconcile_services_twice vm_state [] = refl
reconcile_services_twice vm_state ((name, s) ∷ rest) =
    cc (reconcile_service_twice s (vm_state name), reconcile_services_twice vm_state rest)

-- While the VMs answer alike, a second reconciliation changes nothing.
pub reconcile_vm_state_twice :
    (vm_state : Text → VmState) (store : Store)
    → reconcile_vm_state vm_state (reconcile_vm_state vm_state store)
      ≡ reconcile_vm_state vm_state store
unfolding reconcile_vm_state
reconcile_vm_state_twice vm_state store = rw (reconcile_services_twice vm_state store.services) refl

-- The pid that is recorded for a service; 0 for one that is not recorded.
abbrev pub pid_in : Option ServiceState → ℤ
pid_in none = pos 0
pid_in (some s) = s.pid

pid-reconcile_service :
    (s : ServiceState) (answer : VmState)
    → (reconcile_service s answer).pid ≡ (if answers answer then s.pid else pos 0)
unfolding reconcile_service with_answer answers
pid-reconcile_service s (err e) = elim (Bool-cases (int_eq s.pid (pos 0))) [
  | inl h ↦ rw h (int_eq_zero s.pid h)
  | inr h ↦ rw h refl
]
pid-reconcile_service s (ok state) = elim (Bool-cases (int_eq s.pid (pos 0))) [
  | inl h ↦ rw h (ground (arith, int_eq_zero s.pid h))
  | inr h ↦ rw h (ground arith)
]

pid-reconcile_services :
    (vm_state : Text → VmState) (name : Text) (m : Map ServiceState)
    → pid_in (lookup name (reconcile_services vm_state m))
      ≡ (if answers (vm_state name) then pid_in (lookup name m) else pos 0)
unfolding reconcile_services lookup
pid-reconcile_services vm_state name [] = ground arith
pid-reconcile_services vm_state name ((n, s) ∷ rest) = elim (Bool-cases (text_eq n name)) [
  | inl h ↦ rw h (rw ((text_eq_iff n name).0 h) (pid-reconcile_service s (vm_state name)))
  | inr h ↦ rw h (pid-reconcile_services vm_state name rest)
]

-- Behind reconcileVMState a service has the pid that was recorded if its VM answers with a state,
-- and else none.
pub reconcile_vm_state-pid :
    (vm_state : Text → VmState) (name : Text) (store : Store)
    → pid_in (lookup name (reconcile_vm_state vm_state store).services)
      ≡ (if answers (vm_state name) then pid_in (lookup name store.services) else pos 0)
unfolding reconcile_vm_state
reconcile_vm_state-pid vm_state name store = pid-reconcile_services vm_state name store.services
