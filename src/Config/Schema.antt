-- ===== src/Config/Schema.antt =====
-- internal/config/schema.go: the compose document.
use microbe.Base.{ℤ, Bool, Option, List, Text, Map}

pub record Network : Type 0 where
  pub internal : Bool

pub record Rule : Type 0 where
  pub from : Text
  pub to : Text
  pub ports : List ℤ
  pub proto : Text

pub record Volume : Type 0 where
  pub type : Text
  pub name : Text
  pub target : Text
  pub size : Text
  pub host : Text
  pub mode : Text
  pub protocol : Text
  pub fs_type : Text
  pub owner : Text

pub record Attach : Type 0 where
  pub name : Text
  pub addr : Text

pub record Healthcheck : Type 0 where
  pub interval : Text
  pub timeout : Text
  pub start_period : Text
  pub port : ℤ

pub record Service : Type 0 where
  pub vcpus : ℤ
  pub mem : ℤ
  pub hypervisor : Text
  pub os : Text
  pub config_present : Bool
  pub volumes : List Volume
  pub networks : List Attach
  pub ports : List Text
  pub depends_on : List Text
  pub healthcheck : Option Healthcheck

pub record Compose : Type 0 where
  pub schema_version : ℤ
  pub name : Text
  pub networks : Map Network
  pub services : Map Service
  pub rules : List Rule
