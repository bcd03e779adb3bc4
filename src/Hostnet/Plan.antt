-- ===== src/Hostnet/Plan.antt =====
-- internal/hostnet/plan.go and the record of internal/lockfile/lockfile.go: a stack's addresses,
-- permanent in the lock, its MACs and its hosts file.
use microbe.Base.{
  ℕ, zero, suc, ◌+◌, ◌/◌, ◌%◌, ltb, Bool, Option, none, some, List, [], ◌∷◌, ◌++◌, Text, codes,
  text_eq, text_lt, length, Map, lookup, insert, keys, or_else, if◌then◌else◌, ◌==◌, Result, ok,
  err, ◌>>=◌, fold_result, sort_texts, sort,
}
use microbe.Config.Schema.{Attach, Service, Compose}
use microbe.Hostnet.Prefix.{Prefix, AddrError, no_prefix, bad_prefix, random_addr}
use microbe.Hostnet.Names.{hex_digit}

-- `lockfile.Lock`; a nil map of services is the empty one.
pub record Lock : Type 0 where
  pub prefix : Text
  pub services : Map Text

-- `lockfile.Load` of a missing file.
abbrev pub empty_lock : Lock
empty_lock = record { prefix = []; services = [] }

-- `NetworkPlan`
pub record NetworkPlan : Type 0 where
  pub addrs : Map Text
  pub macs : Map (Map Text)

-- `staticAddr`: the first address that an attachment states.
unfoldable pub first_addr : List Attach → Text
first_addr [] = []
first_addr (a ∷ attaches) =
    let rest = first_addr attaches in if length a.addr == 0 then rest else a.addr

abbrev networks_of : Option Service → List Attach
networks_of none = []
networks_of (some s) = s.networks

unfoldable pub static_addr : Map Service → Text → Text
unfolding first_addr
static_addr services svc = first_addr (networks_of (lookup svc services))

-- What the plan takes from Go's library: `netip.ParsePrefix`, `Addr.String`, and the outcome of the
-- one `rand.Read` that may be made for a service.
pub record Source : Type 0 where
  pub parse_prefix : Text → Option Prefix
  pub print_addr : List ℕ → Text
  pub rand : Text → ℕ → Option (List ℕ)

-- The addresses that were given, and the lock's services.
abbrev pub Allocation : Type 0
Allocation = Map Text × Map Text

module _ (source : Source) where
  unfoldable pub fresh_addr : Prefix → Text → Result AddrError Text
  fresh_addr prefix svc =
      random_addr prefix (source.rand svc) >>= λ bytes. ok (source.print_addr bytes)

  -- A service without a static address: the lock's, else a fresh one, which goes into the lock.
  unfoldable pub allocate_dynamic :
      Prefix → Text → Allocation → Option Text → Result AddrError Allocation
  allocate_dynamic prefix svc (addrs, locked) (some existing) =
      ok (insert svc existing addrs, locked)
  allocate_dynamic prefix svc (addrs, locked) none =
      fresh_addr prefix svc >>= λ addr. ok (insert svc addr addrs, insert svc addr locked)

  -- One round of the loop of `allocateAddrs`.
  unfoldable pub allocate_addr :
      Map Service → Prefix → Allocation → Text → Result AddrError Allocation
  allocate_addr services prefix (addrs, locked) svc =
      let static = static_addr services svc in
      if length static == 0
      then allocate_dynamic prefix svc (addrs, locked) (lookup svc locked)
      else ok (insert svc static addrs, insert svc static locked)

  -- `netip.ParsePrefix(lock.Prefix)`, once the prefix is known not to be empty.
  unfoldable pub parse_lock_prefix : Text → Result AddrError Prefix
  parse_lock_prefix text =
      if length text == 0
      then err no_prefix
      else elim (source.parse_prefix text) [ none ↦ err (bad_prefix text) | some p ↦ ok p ]

  unfoldable pub allocate_addrs : Map Service → Lock → Result AddrError (Map Text × Lock)
  allocate_addrs services lock = parse_lock_prefix lock.prefix >>= λ prefix.
      fold_result (allocate_addr services prefix) ([], lock.services) (sort_texts (keys services))
      >>= λ done. ok (done.0, record lock { services = done.1 })

-- `svcNetPair` with the order of `sort.Slice`.
abbrev pub Pair : Type 0
Pair = Text × Text

unfoldable pub pair_lt : Pair → Pair → Bool
pair_lt a b = if text_eq a.0 b.0 then text_lt a.1 b.1 else text_lt a.0 b.0

unfoldable pub attach_pairs : Text → List Attach → List Pair
attach_pairs svc [] = []
attach_pairs svc (a ∷ attaches) = (svc, a.name) ∷ attach_pairs svc attaches

unfoldable pub all_pairs : Map Service → List Pair
unfolding attach_pairs
all_pairs [] = []
all_pairs ((svc, s) ∷ rest) = attach_pairs svc s.networks ++ all_pairs rest

-- `%02x`: two hexadecimal digits below 256, as many as it takes from there on.
hex_from : ℕ → ℕ → Text
hex_from zero n = []
hex_from (suc fuel) n =
    let front = hex_from fuel (n / 16) in if n == 0 then [] else front ++ hex_digit (n % 16) ∷ []

unfoldable pub hex2 : ℕ → Text
unfolding hex_from
hex2 n = if ltb n 256 then hex_digit (n / 16) ∷ hex_digit (n % 16) ∷ [] else hex_from n n

-- The MAC of the pair that stands at this place of the sorted list.
unfoldable pub mac : ℕ → Text
mac i = codes "02:00:00:00:00:" ++ hex2 (i + 1)

-- `macs[pair.svc][pair.net] = ...`
unfoldable pub put_mac : Map (Map Text) → Pair → Text → Map (Map Text)
put_mac macs (svc, net) m = insert svc (insert net m (or_else (lookup svc macs) [])) macs

unfoldable pub put_macs : ℕ → Map (Map Text) → List Pair → Map (Map Text)
unfolding put_mac mac
put_macs i macs [] = macs
put_macs i macs (pair ∷ pairs) = put_macs (i + 1) (put_mac macs pair (mac i)) pairs

unfoldable pub empty_macs : List Text → Map (Map Text)
empty_macs [] = []
empty_macs (svc ∷ svcs) = insert svc [] (empty_macs svcs)

-- `allocateMACs`
unfoldable pub allocate_macs : Map Service → Map (Map Text)
unfolding put_macs empty_macs all_pairs pair_lt
allocate_macs services = put_macs 0 (empty_macs (keys services)) (sort pair_lt (all_pairs services))

-- `Plan`: the plan, and the lock that the caller saves.
unfoldable pub plan : Source → Compose → Lock → Result AddrError (NetworkPlan × Lock)
plan source cfg lock = allocate_addrs source cfg.services lock >>= λ done.
    ok (record { addrs = done.0; macs = allocate_macs cfg.services }, done.1)

-- `RenderHosts`: one line for each service, in the order of the names.
unfoldable pub host_lines : Map Text → List Text → List Text
host_lines addrs [] = []
host_lines addrs (svc ∷ svcs) =
    (or_else (lookup svc addrs) [] ++ (codes " " ++ svc)) ∷ host_lines addrs svcs

unfoldable pub render_hosts : NetworkPlan → List Text
unfolding host_lines
render_hosts p = host_lines p.addrs (sort_texts (keys p.addrs))
