-- ===== src/Lifecycle/Spared.antt =====
-- The sweep of internal/cmd/down.go spares the devices of the services that stay up.
use microbe.Base.{
  ◌≡◌, refl, sym, subst, ◌∙◌, Bool, true, false, not, ◌&&◌, ◌||◌, Bool-cases, inl, inr, ℤ, Option,
  some, List, [], ◌∷◌, Text, text_eq, text_eq_iff, text_eq_refl, length, contains, contains-append,
  contains-sort_texts, Map, lookup, ◌==◌, arith,
}
use microbe.Config.Schema.{Service}
use microbe.Hostnet.Names.{bridge_name, tap_id}
use microbe.Provisiond.Specs.{NetSpec, TapSpec}
use microbe.Lifecycle.Stack.{StackService, Stack}
use microbe.Lifecycle.State.{Store}
use microbe.Lifecycle.Devices.{
  dedupe_from, dedupe_names, bridge_if, net_taps, attached_names, unselected_names,
  retained_device_names, keep_orphans, orphans,
}

contains-dedupe_from :
    (x : Text) (seen names : List Text)
    → contains x (dedupe_from seen names)
      ≡ (not (length x == 0) && not (contains x seen) && contains x names)
unfolding dedupe_from
contains-dedupe_from x seen [] = ground arith
contains-dedupe_from x seen (n ∷ names) = ground (
  arith,
  text_eq_iff x n,
  contains-dedupe_from x seen names,
  contains-dedupe_from x (n ∷ seen) names,
)

-- A list of names that was deduplicated has the names that are not empty.
pub contains-dedupe_names :
    (x : Text) (names : List Text)
    → contains x (dedupe_names names) ≡ (not (length x == 0) && contains x names)
unfolding dedupe_names
contains-dedupe_names x names =
    contains-sort_texts x (dedupe_from [] names) ∙ contains-dedupe_from x [] names ∙ ground arith

some_inj : {a b : StackService} → ◌≡◌ {A = Option StackService} (some a) (some b) → a ≡ b
some_inj e = cc e

later_too : (a b : Bool) → b ≡ true → (a || b) ≡ true
later_too a b h = ground arith

retained_of : (a b : Bool) → a ≡ false → b ≡ true → (not a && b) ≡ true
retained_of a b h k = ground arith

contains-keep_orphans :
    (x : Text) (planned retained names : List Text)
    → contains x retained ≡ true
    → contains x (keep_orphans planned retained names) ≡ false
unfolding keep_orphans
contains-keep_orphans x planned retained [] h = refl
contains-keep_orphans x planned retained (n ∷ names) h =
    ground (arith, text_eq_iff x n, contains-keep_orphans x planned retained names h, h)

module _ (sha256 : Text → Text) where
  pub contains-net_taps :
      (stack svc net : Text) (nets : List Text)
      → contains net nets ≡ true
      → contains (tap_id sha256 stack svc net) (net_taps sha256 stack svc nets) ≡ true
  unfolding net_taps
  contains-net_taps stack svc net [] h = h
  contains-net_taps stack svc net (n ∷ nets) h = elim (Bool-cases (text_eq net n)) [
    | inl y ↦
        rw (sym ((text_eq_iff net n).0 y))
          (ground (arith, text_eq_refl (tap_id sha256 stack svc net)))
    | inr k ↦ ground (arith, h, k, contains-net_taps stack svc net nets)
  ]

  pub tap_id_not_empty :
      (stack svc net : Text) → (length (tap_id sha256 stack svc net) == 0) ≡ false
  unfolding tap_id
  tap_id_not_empty stack svc net = ground arith

  pub bridge_name_not_empty : (stack : Text) → (length (bridge_name sha256 stack) == 0) ≡ false
  unfolding bridge_name
  bridge_name_not_empty stack = ground arith

  -- The devices of a service's attachment to a network are among those it is attached to.
  pub attached_has :
      (x stack svc net : Text) (nets : List Text)
      → contains net nets ≡ true
      → ((text_eq x (bridge_name sha256 stack) || text_eq x (tap_id sha256 stack svc net)) ≡ true)
      → contains x (attached_names sha256 stack svc nets) ≡ true
  unfolding attached_names bridge_if
  attached_has x stack svc net [] h q = absurd (cc h)
  attached_has x stack svc net (n ∷ nets) h q = ground (
    arith,
    text_eq_iff x (tap_id sha256 stack svc net),
    contains-net_taps stack svc net (n ∷ nets) h,
    q,
  )

  unselected_has :
      (x stack svc net : Text) (selected : List Text) (s : StackService)
      (services : Map StackService)
      → lookup svc services ≡ some s
      → contains svc selected ≡ false
      → contains net s.networks ≡ true
      → ((text_eq x (bridge_name sha256 stack) || text_eq x (tap_id sha256 stack svc net)) ≡ true)
      → contains x (unselected_names sha256 stack selected services) ≡ true
  unfolding unselected_names lookup
  unselected_has x stack svc net selected s [] e out h q = absurd (cc e)
  unselected_has x stack svc net selected s ((name, r) ∷ rest) e out h q =
      elim (Bool-cases (text_eq name svc)) [
        | inl y ↦
            let same : r ≡ s = some_inj (rw y at e) in
            let held : contains net r.networks ≡ true =
              subst (λ (t : StackService). contains net t.networks ≡ true) (sym same) h in
            rw ((text_eq_iff name svc).0 y) (
              rw out (
                contains-append x (attached_names sha256 stack svc r.networks) _
                ∙ rw (attached_has x stack svc net r.networks held q) refl))
        | inr n ↦
            let later = unselected_has x stack svc net selected s rest (rw n at e) out h q in
            elim (Bool-cases (contains name selected)) [
              | inl k ↦ rw k later
              | inr k ↦ rw k (
                  contains-append x (attached_names sha256 stack name r.networks) _
                  ∙ later_too (contains x (attached_names sha256 stack name r.networks)) _ later)
            ]
      ]

  -- A device that a service which stays up is attached to, its bridge or its tap.
  abbrev pub IsDevice : Text → Text → Text → Text → Type 0
  IsDevice x stack svc net =
      (text_eq x (bridge_name sha256 stack) || text_eq x (tap_id sha256 stack svc net)) ≡ true

  pub device_not_empty :
      (x stack svc net : Text) → IsDevice x stack svc net → (length x == 0) ≡ false
  device_not_empty x stack svc net q = ground (
    arith,
    text_eq_iff x (bridge_name sha256 stack),
    text_eq_iff x (tap_id sha256 stack svc net),
    bridge_name_not_empty stack,
    tap_id_not_empty stack svc net,
    q,
  )

  retained_has :
      (x svc net : Text) (st : Stack) (store : Store) (selected : List Text) (s : StackService)
      → lookup svc st.services ≡ some s
      → contains svc selected ≡ false
      → contains net s.networks ≡ true
      → IsDevice x st.name svc net
      → contains x (retained_device_names sha256 st store selected) ≡ true
  unfolding retained_device_names
  retained_has x svc net st store selected s e out h q =
      contains-dedupe_names x _
      ∙ retained_of (length x == 0) _ (device_not_empty x st.name svc net q) (
          contains-append x (unselected_names sha256 st.name selected st.services) _
          ∙ rw (unselected_has x st.name svc net selected s st.services e out h q) refl)

  -- The sweep of a down names neither the bridge nor a tap of a service of the stack that is
  -- attached to a network and is not part of that down, whatever the state file names as
  -- provisioned.
  pub orphans-spare :
      (cfg_services : Map Service) (uid gid : ℤ) (st : Stack) (store : Store) (selected : List Text)
      (nets : List NetSpec) (taps : List TapSpec) (svc net x : Text) (s : StackService)
      → lookup svc st.services ≡ some s
      → contains svc selected ≡ false
      → contains net s.networks ≡ true
      → IsDevice x st.name svc net
      → contains x (orphans sha256 cfg_services uid gid st store selected nets taps) ≡ false
  unfolding orphans
  orphans-spare cfg_services uid gid st store selected nets taps svc net x s e out h q =
      contains-keep_orphans x _ (retained_device_names sha256 st store selected) _
        (retained_has x svc net st store selected s e out h q)
