-- ===== src/Provisiond/Expr.antt =====
-- The expression lists of internal/provisiond/nft.go, built of the `expr` package's types.
use microbe.Base.{
  ℕ, ◌/◌, ◌%◌, ℤ, pos, int_eq, to_uint16, Option, none, some, List, [], ◌∷◌, ◌++◌, Text, codes,
  text_eq, length, ◌==◌, if◌then◌else◌, Result, ok, err, ◌>>=◌,
}
use microbe.Config.Parsers.{Addr, v4, v6}
use microbe.Provisiond.Specs.{PortSpec, RuleSpec}

pub data Base : Type 0 where
  network_header : Base
  transport_header : Base

pub data CmpOp : Type 0 where
  cmp_eq : CmpOp
  cmp_neq : CmpOp

pub data Expr : Type 0 where
  meta_l4proto : (register : ℕ) → Expr
  cmp : CmpOp → (register : ℕ) → List ℕ → Expr
  payload : (register : ℕ) → Base → (offset len : ℕ) → Expr
  immediate : (register : ℕ) → List ℕ → Expr
  dest_nat_ipv6 : (addr_register proto_register : ℕ) → Expr
  ct_state : (register : ℕ) → Expr
  bitwise : (source dest len : ℕ) → (mask xor : List ℕ) → Expr
  accept : Expr

pub data ExprError : Type 0 where
  bad_guest_addr : Text → ExprError
  bad_from_addr : Text → ExprError
  bad_to_addr : Text → ExprError

-- `binaryutil.BigEndian.PutUint16(uint16(n))`
abbrev pub put_uint16 : ℤ → List ℕ
put_uint16 n = (to_uint16 n / 256) ∷ (to_uint16 n % 256) ∷ []

abbrev pub ipproto_tcp : ℕ
ipproto_tcp = 6

abbrev pub ipproto_udp : ℕ
ipproto_udp = 17

abbrev pub ipv6_src_offset : ℕ
ipv6_src_offset = 8

abbrev pub ipv6_dst_offset : ℕ
ipv6_dst_offset = 24

-- `addr == nil || addr.To4() != nil`: an address that is absent, or an IPv4 one, is refused.
unfoldable pub ipv6_only : ExprError → Option Addr → Result ExprError (List ℕ)
ipv6_only e none = err e
ipv6_only e (some (v4 bytes)) = err e
ipv6_only e (some (v6 bytes)) = ok bytes

-- `parse_ip` is `net.ParseIP`, with `v4` for the addresses whose `To4` is not nil.
module _ (parse_ip : Text → Option Addr) where
  unfoldable pub dnat_exprs : PortSpec → Result ExprError (List Expr)
  unfolding ipv6_only
  dnat_exprs p = ipv6_only (bad_guest_addr p.guest_ip) (parse_ip p.guest_ip) >>= λ addr. ok (
      meta_l4proto 1
      ∷ cmp cmp_eq 1 (ipproto_tcp ∷ [])
      ∷ payload 1 transport_header 2 2
      ∷ cmp cmp_eq 1 (put_uint16 p.host_port)
      ∷ immediate 1 addr
      ∷ immediate 2 (put_uint16 p.guest_port)
      ∷ dest_nat_ipv6 1 2
      ∷ [])

  unfoldable pub port_forward_accept_exprs : PortSpec → Result ExprError (List Expr)
  unfolding ipv6_only
  port_forward_accept_exprs p =
      ipv6_only (bad_guest_addr p.guest_ip) (parse_ip p.guest_ip) >>= λ addr. ok (
        payload 1 network_header ipv6_dst_offset 16
        ∷ cmp cmp_eq 1 addr
        ∷ meta_l4proto 2
        ∷ cmp cmp_eq 2 (ipproto_tcp ∷ [])
        ∷ payload 3 transport_header 2 2
        ∷ cmp cmp_eq 3 (put_uint16 p.guest_port)
        ∷ accept
        ∷ [])

  -- The protocol's number: UDP's for "udp", TCP's for everything else.
  unfoldable pub proto_num : Text → ℕ
  proto_num proto =
      let name = if length proto == 0 then codes "tcp" else proto in
      if text_eq name (codes "udp") then ipproto_udp else ipproto_tcp

  unfoldable pub port_match : ℤ → List Expr
  port_match port =
      if int_eq port (pos 0)
      then []
      else payload 4 transport_header 2 2 ∷ cmp cmp_eq 4 (put_uint16 port) ∷ []

  unfoldable pub rule_exprs : RuleSpec → Result ExprError (List Expr)
  unfolding ipv6_only proto_num port_match
  rule_exprs r = ipv6_only (bad_from_addr r.from) (parse_ip r.from) >>= λ from.
      ipv6_only (bad_to_addr r.to) (parse_ip r.to) >>= λ to. ok (
        (payload 1 network_header ipv6_src_offset 16
          ∷ cmp cmp_eq 1 from
          ∷ payload 2 network_header ipv6_dst_offset 16
          ∷ cmp cmp_eq 2 to
          ∷ meta_l4proto 3
          ∷ cmp cmp_eq 3 (proto_num r.proto ∷ [])
          ∷ [])
        ++ (port_match r.port ++ accept ∷ []))

-- `establishedAcceptExprs`; `ct_mask` is the native-endian word of the two state bits.
abbrev pub established_accept_exprs : List ℕ → List Expr
established_accept_exprs ct_mask =
    ct_state 1
    ∷ bitwise 1 1 4 ct_mask (0 ∷ 0 ∷ 0 ∷ 0 ∷ [])
    ∷ cmp cmp_neq 1 (0 ∷ 0 ∷ 0 ∷ 0 ∷ [])
    ∷ accept
    ∷ []
