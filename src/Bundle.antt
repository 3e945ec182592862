-- ===== src/Bundle.antt =====
-- internal/bundle/bundle.go: the decision bundle and its constants.
pub mod Validate
pub mod Index
pub mod Cache
pub mod Store
pub mod Samples
pub mod Boot
use zeus_gslb.Prelude.{Text, text, Option, List}
use zeus_gslb.Prelude.Int.{ℤ, pos}

abbrev pub supported_protocol_version : ℤ
supported_protocol_version = pos 1

abbrev pub state_ok : Text
state_ok = text "ok"

abbrev pub state_degraded : Text
state_degraded = text "degraded"

abbrev pub mode_all : Text
mode_all = text "all"

pub record Answer : Type 0 where
  pub ip : Text
  pub port : ℤ

pub record Candidate : Type 0 where
  pub cluster : Text
  pub target_key : Text
  pub health : Text
  pub answers : List Answer

pub record LocalCheck : Type 0 where
  pub target_key : Text
  pub probe : Text
  pub host : Text
  pub port : ℤ
  pub path : Text
  pub namespace : Text
  pub service : Text
  pub interval_ms : ℤ
  pub failure_threshold : ℤ
  pub recovery_threshold : ℤ

-- `candidates` is `none` for a nil slice, which is what an absent key leaves. The code never tells
-- a nil `Answers` or `LocalChecks` from an empty one.
pub record Record : Type 0 where
  pub fqdn : Text
  pub ttl : ℤ
  pub state : Text
  pub mode : Text
  pub answers : List Answer
  pub candidates : Option (List Candidate)
  pub local_checks : List LocalCheck

pub record Bundle : Type 0 where
  pub protocol_version : ℤ
  pub domain : Text
  pub generated_at : Text
  pub content_hash : Text
  pub records : List Record
