-- ===== src/Model.antt =====
-- lib/model: the entities and enums of an account's policy. An `i64` that the program compares
-- with sign is a `ℤ`; identifiers are the 64-bit patterns of an `i64`, so they are below 2 ^ 64.
pub mod Input
pub mod Enums
use brdns.Prelude.{ℕ, Bool, Option, List}
use brdns.Prelude.Text.{Text}
use brdns.Prelude.Int.{ℤ}

pub data Action : Type 0 where
  allow deny limit : Action

pub data TargetType : Type 0 where
  domain wildcard category : TargetType

pub data Window : Type 0 where
  hour day week month : Window

pub data UpstreamProtocol : Type 0 where
  dot doh udp : UpstreamProtocol

pub record Account : Type 0 where
  pub id : ℕ
  pub account_number : Text

pub record Rule : Type 0 where
  pub id : ℕ
  pub account_id : ℕ
  pub position : ℕ
  pub action : Action
  pub target_type : TargetType
  pub target_value : Text
  pub limit_count : Option ℤ
  pub limit_window : Option Window
  pub enabled : Bool

pub record Upstream : Type 0 where
  pub id : ℕ
  pub account_id : Option ℕ
  pub name : Text
  pub protocol : UpstreamProtocol
  pub host : Text
  pub port : ℕ
  pub addr : Option Text
  pub is_preset : Bool

pub record AccountPolicy : Type 0 where
  pub rules : List Rule
  pub upstream : Option Upstream

pub record NewRule : Type 0 where
  pub action : Action
  pub target_type : TargetType
  pub target_value : Text
  pub limit_count : Option ℤ
  pub limit_window : Option Window
  pub enabled : Bool

pub record NewUpstream : Type 0 where
  pub name : Text
  pub protocol : UpstreamProtocol
  pub host : Text
  pub port : ℕ
  pub addr : Option Text
