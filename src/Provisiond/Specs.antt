-- ===== src/Provisiond/Specs.antt =====
-- internal/hostnet/ops.go: the resources that the client asks the daemon for.
use microbe.Base.{Bool, ℤ, Text}

pub record NetSpec : Type 0 where
  pub gateway : Text
  pub prefix : ℤ

pub record TapSpec : Type 0 where
  pub name : Text
  pub bridge : Text
  pub owner : ℤ
  pub group : ℤ
  pub multi_queue : Bool

pub record PortSpec : Type 0 where
  pub host_port : ℤ
  pub guest_ip : Text
  pub guest_port : ℤ

pub record RuleSpec : Type 0 where
  pub from : Text
  pub to : Text
  pub proto : Text
  pub port : ℤ
