-- ===== src/Requirements/Records.antt =====
-- The rows of a criminal record check: `CRCRecord`, `DisqualifyingConviction` and
-- `DiscretionaryOverride` of apps/requirements/models.py, without their encrypted texts and labels.
use risk_management.Common.{ℕ, Bool, true, false, Option, String}
use risk_management.Common.Int.{pos}
use risk_management.Calendar.{Date, add_months_to}

pub data CrcResult : Type 0 where
  cleared not_clear : CrcResult

pub data NotClearOutcome : Type 0 where
  pending fingerprint_submitted withdrew : NotClearOutcome

pub record CrcRecord : Type 0 where
  pub pk : ℕ
  pub result : CrcResult
  pub report_date : Date
  pub includes_vulnerable_sector : Bool
  pub is_fingerprint_verified : Bool
  pub not_clear_outcome : Option NotClearOutcome
  pub superseded_by : Option ℕ

pub record DisqualifyingConviction : Type 0 where
  pub pk : ℕ
  pub crc_record : ℕ
  pub category : String
  pub is_automatic_disqualifier : Bool

pub data Decision : Type 0 where
  approved approved_with_conditions declined : Decision

pub record DiscretionaryOverride : Type 0 where
  pub pk : ℕ
  pub crc_record : ℕ
  pub conviction : Option ℕ
  pub decision : Decision
  pub decided_on : Date
  pub decided_by : String
  pub reasoning : String
  pub mitigation_steps : String

abbrev pub is_cleared : CrcResult → Bool
is_cleared cleared = true
is_cleared not_clear = false

-- The three-year clock runs from the report date.
unfoldable pub crc_expires_on : Date → Date
crc_expires_on report_date = add_months_to report_date (pos 36)
