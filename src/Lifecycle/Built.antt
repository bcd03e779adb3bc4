-- ===== src/Lifecycle/Built.antt =====
-- What `buildStore` records of each service.
use mathlib.Core.List.{foldr}
use microbe.Base.{
  codes, pos, int_lt, or_else, ◌≡◌, refl, sym, ap, ◌∙◌, true, false, Bool-cases, Option, none, some,
  inl, inr, List, [], ◌∷◌, Text, text_eq, text_eq_iff, text_eq_refl, length, contains, ◌||◌,
  contains-sort_texts, Map, lookup, insert, has, has-contains, keys, lookup-insert, sort_texts,
  if◌then◌else◌, ◌==◌, Option-cases, arith,
}
use microbe.Config.Schema.{Volume, Compose}
use microbe.Lifecycle.Stack.{StackService, Stack}
use microbe.Lifecycle.State.{ServiceState, Store}
use microbe.Lifecycle.Build.{
  Run, disk_names, volumes_in, int_at, status_of, id_of, service_state, service_states, carry_over,
  build_store,
}

abbrev pub gone : Option ServiceState → Option ServiceState
gone none = none
gone (some s) = some (record s { stale = true })

-- A map with one entry to a key.
abbrev pub HasDistinctKeys : Map ServiceState → Type 0
HasDistinctKeys [] = Unit
HasDistinctKeys ((name, s) ∷ rest) = (lookup name rest ≡ none) × HasDistinctKeys rest

lookup-carry_over :
    (name : Text) (services prev : Map ServiceState)
    → HasDistinctKeys prev
    → lookup name (carry_over services prev)
      ≡ (if has name services then lookup name services else gone (lookup name prev))
unfolding carry_over lookup
lookup-carry_over name services [] d = ground arith
lookup-carry_over name services ((n, s) ∷ prev) d = elim (Bool-cases (has n services)) [
  | inl h ↦ rw h (lookup-carry_over name services prev d.1 ∙ ground (arith, text_eq_iff n name, h))
  | inr h ↦ rw h (
      lookup-carry_over name (insert n (record s { stale = true }) services) prev d.1
      ∙ rw (lookup-insert n name (record s { stale = true }) services)
          (ground (arith, text_eq_iff n name, h, d.0)))
]

-- The identity that a state records, if it is not empty.
abbrev pub known_id : Option ServiceState → Option Text
known_id none = none
known_id (some s) = if length s.id == 0 then none else some s.id

id_of-known :
    (fresh : Text → Text) (prev : Map ServiceState) (name : Text)
    → id_of prev fresh name ≡ or_else (known_id (lookup name prev)) (fresh name)
unfolding id_of
id_of-known fresh prev name = elim (Option-cases (lookup name prev)) [
  | inl e ↦ rw e refl
  | inr (s, e) ↦ rw e (ground arith)
]

disk_names-foldr :
    (volumes : List Volume)
    → disk_names volumes
      ≡ foldr
          (λ v names. if text_eq v.type (codes "disk") then v.name ∷ names else names)
          []
          volumes
unfolding disk_names
disk_names-foldr [] = refl
disk_names-foldr (v ∷ volumes) = rw (disk_names-foldr volumes) refl

module _ (fresh : Text → Text) (join : Text → Text → Text) where
  -- What is recorded of a service of the stack: its address, networks, CID and MACs as planned, the
  -- pids that this run started, or 0, the outcome of its health check, or else whether it has a pid,
  -- and the identity that was recorded before, or a fresh one.
  abbrev pub built :
      Compose → Run → Text → Map ServiceState → Text → Option StackService → Option ServiceState
  built cfg run runner_dir prev name none = none
  built cfg run runner_dir prev name (some s) = some (record {
    id = or_else (known_id (lookup name prev)) (fresh name);
    addr = s.addr;
    networks = s.networks;
    cid = pos s.cid;
    macs = s.macs;
    volumes =
        foldr (λ v names. if text_eq v.type (codes "disk") then v.name ∷ names else names) []
          (volumes_in (lookup name cfg.services));
    status = or_else (lookup name run.statuses) (
        if int_lt (pos 0) (or_else (lookup name run.pids) (pos 0))
        then codes "running"
        else codes "stopped");
    pid = or_else (lookup name run.pids) (pos 0);
    runner = join runner_dir name;
    virtiofsd_pid = or_else (lookup name run.virtiofsd_pids) (pos 0);
    stale = false;
  })

  abbrev coded :
      Compose → Run → Text → Map ServiceState → Text → Option StackService → Option ServiceState
  coded cfg run runner_dir prev name none = none
  coded cfg run runner_dir prev name (some s) =
      some (service_state fresh join cfg run runner_dir prev name s)

  coded-eq-built :
      (cfg : Compose) (run : Run) (runner_dir : Text) (prev : Map ServiceState) (name : Text)
      (o : Option StackService)
      → coded cfg run runner_dir prev name o ≡ built cfg run runner_dir prev name o
  unfolding service_state int_at status_of
  coded-eq-built cfg run runner_dir prev name none = refl
  coded-eq-built cfg run runner_dir prev name (some s) =
      rw (id_of-known fresh prev name, disk_names-foldr (volumes_in (lookup name cfg.services)))
        refl

  lookup-service_states :
      (cfg : Compose) (st : Stack) (run : Run) (runner_dir : Text) (prev : Map ServiceState)
      (name : Text) (names : List Text)
      → lookup name (service_states fresh join cfg st run runner_dir prev names) ≡ (
          if contains name names
          then coded cfg run runner_dir prev name (lookup name st.services)
          else none)
  unfolding service_states lookup
  lookup-service_states cfg st run runner_dir prev name [] = refl
  lookup-service_states cfg st run runner_dir prev name (n ∷ names) =
      let later = lookup-service_states cfg st run runner_dir prev name names in
      elim (Option-cases (lookup n st.services)) [
        | inl e ↦ rw e (later ∙ none_either_way (lookup n st.services) e)
        | inr (s, e) ↦ rw e (
            lookup-insert n name (service_state fresh join cfg run runner_dir prev n s)
              (service_states fresh join cfg st run runner_dir prev names)
            ∙ elim (Bool-cases (text_eq n name)) [
              | inl h ↦ rw h (found s h e)
              | inr h ↦ rw h (later ∙ ground (arith, text_eq_iff n name, text_eq_iff name n, h))
            ])
      ]
    where
      none_either_way :
          (o : Option StackService) (e : lookup n st.services ≡ none)
          → (if contains name names
              then coded cfg run runner_dir prev name (lookup name st.services)
              else none)
            ≡ (if text_eq name n || contains name names
                then coded cfg run runner_dir prev name (lookup name st.services)
                else none)
      none_either_way o e = elim (Bool-cases (text_eq name n)) [
        | inl h ↦ rw h (rw ((text_eq_iff name n).0 h) (rw e (ground arith)))
        | inr h ↦ rw h refl
      ]

      found :
          (s : StackService)
          → text_eq n name ≡ true
          → lookup n st.services ≡ some s
          → some (service_state fresh join cfg run runner_dir prev n s) ≡ (
              if text_eq name n || contains name names
              then coded cfg run runner_dir prev name (lookup name st.services)
              else none)
      found s h e = rw (sym ((text_eq_iff n name).0 h)) (rw (text_eq_refl n) (rw e refl))

  in_stack :
      (cfg : Compose) (st : Stack) (run : Run) (runner_dir : Text) (prev : Store) (name : Text)
      → lookup name (
          service_states fresh join cfg st run runner_dir prev.services
            (sort_texts (keys st.services)))
        ≡ coded cfg run runner_dir prev.services name (lookup name st.services)
  in_stack cfg st run runner_dir prev name =
      lookup-service_states cfg st run runner_dir prev.services name (sort_texts (keys st.services))
      ∙ rw (contains-sort_texts name (keys st.services) ∙ sym (has-contains name st.services))
          (elim (Option-cases (lookup name st.services)) [
            | inl e ↦ rw e refl
            | inr (s, e) ↦ rw e refl
          ])

  lookup-coded :
      (cfg : Compose) (st : Stack) (run : Run) (runner_dir : Text) (prev : Store) (name : Text)
      → HasDistinctKeys prev.services
      → lookup name (build_store fresh join cfg st run runner_dir prev).services ≡ (
          if has name st.services
          then coded cfg run runner_dir prev.services name (lookup name st.services)
          else gone (lookup name prev.services))
  unfolding build_store
  lookup-coded cfg st run runner_dir prev name d =
      lookup-carry_over name
        (service_states fresh join cfg st run runner_dir prev.services
          (sort_texts (keys st.services)))
        prev.services d
      ∙ rw (in_stack cfg st run runner_dir prev name)
          (elim (Option-cases (lookup name st.services)) [
            | inl e ↦ rw e refl
            | inr (s, e) ↦ rw e refl
          ])

  -- Where the state before has one entry to a name, buildStore records the services of the stack
  -- and those of the state before. One of the stack is recorded as planned, with the pids that
  -- this run started or 0, with its health or else whether it has a pid, and with nothing of what
  -- was recorded before except its identity; one that only the state before has is carried over as
  -- stale, with all else as it was.
  pub lookup-build_store :
      (cfg : Compose) (st : Stack) (run : Run) (runner_dir : Text) (prev : Store) (name : Text)
      → HasDistinctKeys prev.services
      → lookup name (build_store fresh join cfg st run runner_dir prev).services ≡ (
          if has name st.services
          then built cfg run runner_dir prev.services name (lookup name st.services)
          else gone (lookup name prev.services))
  lookup-build_store cfg st run runner_dir prev name d =
      lookup-coded cfg st run runner_dir prev name d
      ∙ ap (λ o. if has name st.services then o else gone (lookup name prev.services))
          (coded-eq-built cfg run runner_dir prev.services name (lookup name st.services))

  -- A service that has an identity keeps it, whether the stack still has it or not.
  pub build_store-keeps_id :
      (cfg : Compose) (st : Stack) (run : Run) (runner_dir : Text) (prev : Store) (name : Text)
      (s : ServiceState)
      → HasDistinctKeys prev.services
      → lookup name prev.services ≡ some s
      → (length s.id == 0) ≡ false
      → (s' : ServiceState) × (lookup name
            (build_store fresh join cfg st run runner_dir prev).services
          ≡ some s')
        × (s'.id ≡ s.id)
        × (has name st.services ≡ false → s'.stale ≡ true)
  unfolding id_of service_state
  build_store-keeps_id cfg st run runner_dir prev name s d e h =
      elim (Option-cases (lookup name st.services)) [
        | inl q ↦ (
          record s { stale = true },
          lookup-coded cfg st run runner_dir prev name d ∙ rw q (rw e refl),
          refl,
          λ _. refl,
        )
        | inr (t, q) ↦ (
          service_state fresh join cfg run runner_dir prev.services name t,
          lookup-coded cfg st run runner_dir prev name d ∙ rw q refl,
          rw e (rw h refl),
          λ n. absurd (cc (n, q)),
        )
      ]
