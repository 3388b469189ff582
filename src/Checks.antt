-- ===== src/Checks.antt =====
-- api/check/check.go and the data of internal/checks: what a check is, and what a run reports of it.
-- A probe and a fix act on the machine that is inspected, so both are functions on a world `W`, and
-- a panic is a value. `ctx.Err()` is read from the world too: a context may be cancelled at any time.
pub mod Score
pub mod Registry
pub mod Plan
pub mod Run
pub mod Fix
mod Examples
use orkano.Prelude.{Text, Option, List, Bool}

-- `other` is any string that is none of the constants.
pub data Severity : Type 0 where
  critical warning info : Severity
  other : Text → Severity

pub data Status : Type 0 where
  pass fail skip : Status
  other : Text → Status

pub data Outcome : Type 0 where
  pass fail skip error blocked : Outcome

pub record Report : Type 0 where
  pub status : Status
  pub message : Text

-- What a call of a probe comes to: a report, a returned error, or a panic (its value and the stack).
pub data Reply : Type 0 where
  reported : Report → Reply
  failed : Text → Reply
  panicked : Text → Text → Reply

-- What a call of a fix comes to.
pub data Repair : Type 0 where
  done : Repair
  failed : Text → Repair
  panicked : Text → Text → Repair

pub record Check (W : Type 0) : Type 0 where
  pub id : Text
  pub severity : Severity
  pub summary : Text
  pub remediation : Text
  pub requires : List Text
  pub probe : Option (W → Reply × W)
  pub fix : Option (W → Repair × W)

pub record CheckResult : Type 0 where
  pub id : Text
  pub severity : Severity
  pub summary : Text
  pub remediation : Text
  pub fixable : Bool
  pub outcome : Outcome
  pub message : Text
  pub err : Option Text
  pub blockers : List Text
