-- ===== src/Config/Published.antt =====
-- What `validatePorts` accepts: the host ports of a stack are ports, and no two are the same.
use mathlib.Core.Path.{fun_ext}
use microbe.Base.{
  ℕ, ◌≤◌, ◌<◌, ◌≡◌, ◌≢◌, ◌↔◌, refl, sym, ◌∙◌, ap, ◌⊎◌, inl, inr, false, Bool-cases, Option, none,
  some, List, [], ◌∷◌, ◌++◌, map, Text, length, All, Distinct, contains, Map, lookup, insert,
  lookup-insert, ◌==◌, Result, ok, ◌>>=◌, >>=-eq-ok, Result-cases, fold_result, fold_result-append,
  subst, ℤ, pos, negsuc, digits, itoa, atoi, arith,
}
use microbe.Config.Schema.{Service}
use microbe.Config.Errors.{ConfigError}
use microbe.Config.Ports.{
  host_port, host_field, field_port, split, before_slash, port_text, in_port_range,
}
use microbe.Config.Validate.{check_mapping, check_service_ports, validate_ports}

-- A host port is a number from 1 to 65535 in its shortest form, so that equal texts are equal ports.
port_text-digits :
    (n : Option ℤ)
    → (port_text n ≡ []) ⊎ ((k : ℕ) × (0 < k) × (k ≤ 65535) × (port_text n ≡ digits k))
unfolding port_text itoa
port_text-digits none = inl refl
port_text-digits (some (pos k)) = elim (Bool-cases (in_port_range (pos k))) [
  | inl y ↦ inr (k, ground (arith, y), ground (arith, y), rw y refl)
  | inr n ↦ inl (rw n refl)
]
port_text-digits (some (negsuc k)) = inl refl

-- Every published mapping with its service, in the order of the loops.
abbrev service_mappings : Text → List Text → List (Text × Text)
service_mappings name [] = []
service_mappings name (m ∷ ms) = (name, m) ∷ service_mappings name ms

abbrev all_mappings : Map Service → List (Text × Text)
all_mappings [] = []
all_mappings ((name, svc) ∷ rest) = service_mappings name svc.ports ++ all_mappings rest

-- The host ports that a stack publishes.
abbrev pub host_ports : Map Service → List Text
host_ports services = map (λ (m : Text × Text). host_port m.1) (all_mappings services)

step : Map Text → Text × Text → Result ConfigError (Map Text)
step seen (name, mapping) = check_mapping name seen mapping

service_ports_flat :
    (name : Text) (seen : Map Text) (ms : List Text)
    → fold_result (check_mapping name) seen ms ≡ fold_result step seen (service_mappings name ms)
unfolding fold_result step
service_ports_flat name seen [] = refl
service_ports_flat name seen (m ∷ ms) = elim (Result-cases (check_mapping name seen m)) [
  | inl (s, e) ↦ rw e (service_ports_flat name s ms)
  | inr (x, e) ↦ rw e refl
]

ports_flat :
    (seen : Map Text) (services : Map Service)
    → fold_result check_service_ports seen services ≡ fold_result step seen (all_mappings services)
unfolding fold_result check_service_ports
ports_flat seen [] = refl
ports_flat seen ((name, svc) ∷ rest) =
    rw (fold_result-append step seen (service_mappings name svc.ports) (all_mappings rest)) (
      rw (service_ports_flat name seen svc.ports) (
        ap (λ k. fold_result step seen (service_mappings name svc.ports) >>= k)
          (fun_ext (λ s. ports_flat s rest))))

length-ne-zero : (s : Text) → s ≢ [] → (length s == 0) ≡ false
length-ne-zero [] h = absurd (h refl)
length-ne-zero (c ∷ s) h = ground arith

step_ok :
    (seen t : Map Text) (name m : Text)
    → step seen (name, m) ≡ ok t
    → (host_port m ≢ []) × (lookup (host_port m) seen ≡ none) × (t ≡ insert (host_port m) name seen)
unfolding step check_mapping
step_ok seen t name m h =
    (λ e. absurd (ground (arith, ap length e)), ground (arith, h), ground (arith, h))

step_of :
    (seen : Map Text) (name m : Text)
    → host_port m ≢ []
    → lookup (host_port m) seen ≡ none
    → step seen (name, m) ≡ ok (insert (host_port m) name seen)
unfolding step check_mapping
step_of seen name m h e = rw (length-ne-zero (host_port m) h) (rw (e, check_mapping) refl)

-- A name that a map with one entry more lacks is neither that entry's nor in the map.
fresh_iff :
    (h v : Text) (seen : Map Text) (hs : List Text)
    → All (λ x. lookup x (insert h v seen) ≡ none) hs
      ↔ ((contains h hs ≡ false) × All (λ x. lookup x seen ≡ none) hs)
fresh_iff h v seen [] = (λ a. (refl, tt), λ a. tt)
fresh_iff h v seen (x ∷ hs) = (
  λ a.
      let (p, q) = (fresh_iff h v seen hs).0 a.1 in
      (
        ground (arith, a.0, lookup-insert h x v seen),
        (ground (arith, a.0, lookup-insert h x v seen), q),
      ),
  λ (p, q). (
    ground (arith, p, q.0, lookup-insert h x v seen),
    (fresh_iff h v seen hs).1 (ground (arith, p), q.1),
  ),
)

abbrev Publishes : Map Text → List Text → Type 0
Publishes seen hs = All (λ h. h ≢ []) hs × Distinct hs × All (λ x. lookup x seen ≡ none) hs

abbrev hosts_of : List (Text × Text) → List Text
hosts_of ms = map (λ (m : Text × Text). host_port m.1) ms

flat_sound :
    (seen t : Map Text) (ms : List (Text × Text))
    → fold_result step seen ms ≡ ok t
    → Publishes seen (hosts_of ms)
unfolding fold_result
flat_sound seen t [] h = (tt, tt, tt)
flat_sound seen t ((name, m) ∷ ms) h =
    let (s, e, g) = >>=-eq-ok (step seen (name, m)) _ h in
    let (ne, free, q) = step_ok seen s name m e in
    let (nes, dis, fresh) = flat_sound s t ms g in
    let (p, r) =
      (fresh_iff (host_port m) name seen (hosts_of ms)).0
        (subst (λ u. All (λ x. lookup x u ≡ none) (hosts_of ms)) q fresh) in
    ((ne, nes), (p, dis), (free, r))

flat_complete :
    (seen : Map Text) (ms : List (Text × Text))
    → Publishes seen (hosts_of ms)
    → (t : Map Text) × (fold_result step seen ms ≡ ok t)
unfolding fold_result
flat_complete seen [] h = (seen, refl)
flat_complete seen ((name, m) ∷ ms) (nes, dis, fresh) =
    let (t, e) =
      flat_complete (insert (host_port m) name seen) ms
        (nes.1, dis.1, (fresh_iff (host_port m) name seen (hosts_of ms)).1 (dis.0, fresh.1)) in
    (t, rw (step_of seen name m nes.0 fresh.0) e)

none_seen : (hs : List Text) → All (λ x. lookup {V = Text} x [] ≡ none) hs
unfolding lookup
none_seen [] = tt
none_seen (h ∷ hs) = (refl, none_seen hs)

-- validatePorts returns nil exactly when every mapping of the stack has a host port and no two
-- mappings, of one service or of two, have the same.
pub validate_ports_iff :
    (services : Map Service)
    → (validate_ports services ≡ ok tt)
      ↔ (All (λ h. h ≢ []) (host_ports services) × Distinct (host_ports services))
unfolding validate_ports
validate_ports_iff services = (
  λ h.
      let (t, e, _) = >>=-eq-ok (fold_result check_service_ports [] services) _ h in
      let (a, b, c) = flat_sound [] t (all_mappings services) (sym (ports_flat [] services) ∙ e) in
      (a, b),
  λ (a, b).
      let (t, e) =
        flat_complete [] (all_mappings services) (a, b, none_seen (host_ports services)) in
      rw (ports_flat [] services ∙ e) refl,
)

field_port-digits :
    (f : Option Text)
    → (field_port f ≡ []) ⊎ ((k : ℕ) × (0 < k) × (k ≤ 65535) × (field_port f ≡ digits k))
field_port-digits none = inl refl
field_port-digits (some f) = port_text-digits (atoi f)

-- What hostPort returns is empty or the decimal digits of a number from 1 to 65535.
pub host_port-digits :
    (m : Text) → (host_port m ≡ []) ⊎ ((k : ℕ) × (0 < k) × (k ≤ 65535) × (host_port m ≡ digits k))
unfolding host_port
host_port-digits m = field_port-digits (host_field (split b':' (before_slash m)))
