-- ===== src/Config/Accepted.antt =====
-- What a document that `Validate` accepts has passed.
use microbe.Base.{
  ◌≡◌, refl, Bool, true, false, not, List, [], ◌∷◌, Text, length, keys, Result, ok, err, ◌>>◌,
  reject_if, each_result, pos, int_eq, ◌==◌, All, each_result-ok, arith,
}
use microbe.Config.Schema.{Compose}
use microbe.Config.Errors.{ConfigError, invalid_network_name, invalid_service_name}
use microbe.Config.Names.{name_ok}
use microbe.Config.Parsers.{Parsers}
use microbe.Config.Graph.{validate_depends_on}
use microbe.Config.Validate.{
  check_os, validate_attaches, validate_rules, validate_ports, validate_volumes,
}
use microbe.Config.Compose.{validate_healthchecks, validate}

-- The parts of `Validate`, each passed.
pub record Accepted (p : Parsers) (c : Compose) : Type 0 where
  pub version : int_eq c.schema_version (pos 1) ≡ true
  pub stack_name : name_ok c.name ≡ true
  pub some_network : (length c.networks == 0) ≡ false
  pub network_names : All (λ n. name_ok n ≡ true) (keys c.networks)
  pub service_names : All (λ n. name_ok n ≡ true) (keys c.services)
  pub attaches : validate_attaches p c.networks c.services ≡ ok tt
  pub ports : validate_ports c.services ≡ ok tt
  pub depends_on : validate_depends_on c.services ≡ ok tt
  pub volumes : validate_volumes c.services ≡ ok tt
  pub healthchecks : validate_healthchecks p c.services ≡ ok tt
  pub oses : each_result check_os c.services ≡ ok tt
  pub rules : validate_rules c.services c.rules ≡ ok tt

>>-ok : {E : Type 0} (m k : Result E (Unit {0})) → (m >> k) ≡ ok tt → (m ≡ ok tt) × (k ≡ ok tt)
>>-ok (ok u) k h = (refl, h)
>>-ok (err e) k h = cc

reject_if-ok : {E : Type 0} (b : Bool) (e : E) → reject_if b e ≡ ok tt → b ≡ false
reject_if-ok true e h = cc
reject_if-ok false e h = refl

not-false : (b : Bool) → not b ≡ false → b ≡ true
not-false b h = ground arith

names_ok :
    (f : Text → ConfigError) (ns : List Text)
    → All (λ n. reject_if (not (name_ok n)) (f n) ≡ ok tt) ns
    → All (λ n. name_ok n ≡ true) ns
names_ok f [] h = tt
names_ok f (n ∷ ns) h =
    (not-false (name_ok n) (reject_if-ok (not (name_ok n)) (f n) h.0), names_ok f ns h.1)

-- A document that `Validate` accepts passes every part: the names of the stack, its networks and its
-- services have the form of `nameRe`, and no part reports an error.
pub validate-Accepted : (p : Parsers) (c : Compose) → validate p c ≡ ok tt → Accepted p c
unfolding validate
validate-Accepted p c h =
    let (a, h1) = >>-ok _ _ h in
    let (b, h2) = >>-ok _ _ h1 in
    let (n, h3) = >>-ok _ _ h2 in
    let (nets, h4) = >>-ok _ _ h3 in
    let (svcs, h5) = >>-ok _ _ h4 in
    let (at, h6) = >>-ok _ _ h5 in
    let (po, h7) = >>-ok _ _ h6 in
    let (de, h8) = >>-ok _ _ h7 in
    let (vo, h9) = >>-ok _ _ h8 in
    let (he, h10) = >>-ok _ _ h9 in
    let (oe, ru) = >>-ok _ _ h10 in
    record {
      version = not-false _ (reject_if-ok _ _ a);
      stack_name = not-false _ (reject_if-ok _ _ b);
      some_network = reject_if-ok _ _ n;
      network_names = names_ok invalid_network_name (keys c.networks) (each_result-ok _ _ nets);
      service_names = names_ok invalid_service_name (keys c.services) (each_result-ok _ _ svcs);
      attaches = at;
      ports = po;
      depends_on = de;
      volumes = vo;
      healthchecks = he;
      oses = oe;
      rules = ru;
    }
