-- ===== src/Commands/Started.antt =====
-- The order in which `upRun` of internal/cmd/up.go starts the services.
use microbe.Base.{
  ◌≡◌, refl, sym, ap, ◌∙◌, ℤ, pos, int_lt, itoa, ok, err, Result, Option, some, none, List, [], ◌∷◌,
  ◌++◌, Text, codes, text_eq, lookup, insert, if◌then◌else◌, return, and_then, Keeps,
  and_then-Keeps, if-Keeps, each-Keeps,
}
use microbe.Config.Schema.{Volume, Service}
use microbe.Lifecycle.Specs.{SpecError, parse_port}
use microbe.Commands.World.{
  Call, ensure_volume, start_virtiofsd, start_service, wait_for_socket, start_port_forwarder,
  stop_service, World, Outside, Command, answered, ask,
}
use microbe.Commands.Shares.{has_virtiofs_share, virtiofs_share_sockets}
use microbe.Commands.Up.{
  Progress, ensure_volumes, wait_for_sockets, start_shares, proxy_at, stop_stale_proxy,
  forward_port, forward_ports, without_proxy, volumes_with_fs,
}

abbrev start_of : Call → List Text
start_of (start_service svc) = svc ∷ []
start_of _ = []

-- The services whose VM was asked to start, in turn.
unfoldable pub started : List Call → List Text
started [] = []
started (c ∷ calls) = start_of c ++ started calls

pub append_assoc : (xs ys zs : List Text) → (xs ++ ys) ++ zs ≡ xs ++ (ys ++ zs)
append_assoc [] ys zs = refl
append_assoc (x ∷ xs) ys zs = ap (λ l. x ∷ l) (append_assoc xs ys zs)

pub append_nil : (xs : List Text) → xs ++ [] ≡ xs
append_nil [] = refl
append_nil (x ∷ xs) = ap (λ l. x ∷ l) (append_nil xs)

started-append : (xs ys : List Call) → started (xs ++ ys) ≡ started xs ++ started ys
unfolding started
started-append [] ys = refl
started-append (c ∷ xs) ys =
    ap (λ l. start_of c ++ l) (started-append xs ys)
    ∙ sym (append_assoc (start_of c) (started xs) (started ys))

abbrev pub starts_of : World → List Text
starts_of w = started w.calls

-- The action starts no service.
abbrev pub StartsNone : {A : Type 0} → Command A → Type 0
StartsNone m = Keeps starts_of m

answered-calls : (r : Result Text ℤ) (w : World) → (answered r w).1.calls ≡ w.calls
unfolding answered
answered-calls (ok a) w = refl
answered-calls (err e) w = refl

module _ (out : Outside) where
  pub ask-starts :
      (call : Call) (w : World) → starts_of (ask out call w).1 ≡ starts_of w ++ start_of call
  unfolding ask started
  ask-starts call w =
      ap started (answered-calls (out.answer w call) (record w { calls = w.calls ++ call ∷ [] }))
      ∙ started-append w.calls (call ∷ [])
      ∙ ap (λ l. starts_of w ++ l) (append_nil (start_of call))

  pub ask-StartsNone : (call : Call) → start_of call ≡ [] → StartsNone (ask out call)
  ask-StartsNone call none_started w =
      ask-starts call w ∙ rw none_started (append_nil (starts_of w))

  then_tt :
      (call : Call) → start_of call ≡ [] → StartsNone (and_then (ask out call) (λ _. return tt))
  then_tt call none_started =
      and_then-Keeps starts_of (ask out call) (λ _. return tt) (ask-StartsNone call none_started)
        (λ _ w. refl)

  pub ensure_volumes-StartsNone : (volumes : List Volume) → StartsNone (ensure_volumes out volumes)
  unfolding ensure_volumes
  ensure_volumes-StartsNone volumes =
      each-Keeps starts_of
        (λ v.
          if text_eq v.type (codes "disk")
          then and_then (ask out (ensure_volume v.name v.size (volumes_with_fs v))) (λ _. return tt)
          else return tt)
        volumes
        λ v.
          if-Keeps starts_of (text_eq v.type (codes "disk"))
            (and_then (ask out (ensure_volume v.name v.size (volumes_with_fs v))) (λ _. return tt))
            (return tt) (then_tt (ensure_volume v.name v.size (volumes_with_fs v)) refl) (λ w. refl)

  wait_for_sockets-StartsNone :
      (svc : Text) (socks : List Text) → StartsNone (wait_for_sockets out svc socks)
  unfolding wait_for_sockets
  wait_for_sockets-StartsNone svc socks =
      each-Keeps starts_of (λ sock. and_then (ask out (wait_for_socket svc sock)) λ _. return tt)
        socks (λ sock. then_tt (wait_for_socket svc sock) refl)

  pub start_shares-StartsNone :
      (svc : Text) (s : Option Service) → StartsNone (start_shares out svc s)
  unfolding start_shares
  start_shares-StartsNone svc none = λ w. refl
  start_shares-StartsNone svc (some s) =
      if-Keeps starts_of (has_virtiofs_share s)
        (and_then (ask out (start_virtiofsd svc)) (λ pid.
          and_then (wait_for_sockets out svc (virtiofs_share_sockets svc s)) λ _. return pid))
        (return (pos 0))
        (and_then-Keeps starts_of (ask out (start_virtiofsd svc))
          (λ pid.
            and_then (wait_for_sockets out svc (virtiofs_share_sockets svc s)) λ _. return pid)
          (ask-StartsNone (start_virtiofsd svc) refl)
          λ pid.
            and_then-Keeps starts_of (wait_for_sockets out svc (virtiofs_share_sockets svc s))
              (λ _. return pid) (wait_for_sockets-StartsNone svc (virtiofs_share_sockets svc s))
              (λ _ w. refl))
        (λ w. refl)

  forward_port-StartsNone :
      (addr : Text) (r : Result SpecError (ℤ × ℤ)) (p : Progress)
      → StartsNone (forward_port out addr r p)
  unfolding forward_port stop_stale_proxy
  forward_port-StartsNone addr (err e) p = λ w. refl
  forward_port-StartsNone addr (ok (host, guest)) p =
      let key = itoa host in
      let stale = proxy_at key p.ports in
      and_then-Keeps starts_of (stop_stale_proxy out key p.ports)
        (λ ports. and_then (ask out (start_port_forwarder host addr guest)) λ pid.
          return (record p {
            ports = ports;
            run = record p.run { proxy_pids = insert key pid p.run.proxy_pids };
          }))
        (if-Keeps starts_of (int_lt (pos 0) stale)
          (and_then (ask out (stop_service stale))
            (λ _. return (without_proxy (lookup key p.ports) key p.ports)))
          (return p.ports)
          (and_then-Keeps starts_of (ask out (stop_service stale))
            (λ _. return (without_proxy (lookup key p.ports) key p.ports))
            (ask-StartsNone (stop_service stale) refl) (λ _ w. refl))
          (λ w. refl))
        λ ports.
          and_then-Keeps starts_of (ask out (start_port_forwarder host addr guest))
            (λ pid. return (record p {
              ports = ports;
              run = record p.run { proxy_pids = insert key pid p.run.proxy_pids };
            }))
            (ask-StartsNone (start_port_forwarder host addr guest) refl) (λ _ w. refl)

  pub forward_ports-StartsNone :
      (addr : Text) (mappings : List Text) (p : Progress)
      → StartsNone (forward_ports out addr mappings p)
  unfolding forward_ports
  forward_ports-StartsNone addr [] p = λ w. refl
  forward_ports-StartsNone addr (mapping ∷ mappings) p =
      and_then-Keeps starts_of (forward_port out addr (parse_port mapping) p)
        (λ p'. forward_ports out addr mappings p')
        (forward_port-StartsNone addr (parse_port mapping) p)
        (forward_ports-StartsNone addr mappings)
