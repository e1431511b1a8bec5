-- ===== src/Database/Enums.antt =====
-- app/db/models/enums.py: the values stored in enumerated columns, and the tests that the services
-- make on them (`==`, `!=` and `in` over a constant set).
use seniors_empregabilidade.Prelude.{Bool, true, false}

pub data UserType : Type 0 where
  candidate company administrator : UserType

pub data AccountStatus : Type 0 where
  active suspended blocked : AccountStatus

pub data CompanyStatus : Type 0 where
  pending approved rejected blocked : CompanyStatus

pub data SkillType : Type 0 where
  hard soft : SkillType

pub data EmploymentStatus : Type 0 where
  employed unemployed : EmploymentStatus

pub data AvailabilityStatus : Type 0 where
  available unavailable : AvailabilityStatus

pub data WorkMode : Type 0 where
  onsite hybrid remote : WorkMode

pub data JobStatus : Type 0 where
  draft under_review published paused expired closed : JobStatus

pub data JobOutcome : Type 0 where
  hired_on_platform hired_elsewhere not_hired cancelled : JobOutcome

pub data ApplicationType : Type 0 where
  active automatic : ApplicationType

pub data ApplicationStatus : Type 0 where
  applied under_review in_selection_process hired not_selected withdrawn expired : ApplicationStatus

pub data EmailDeliveryStatus : Type 0 where
  pending sent failed : EmailDeliveryStatus

abbrev pub is_active_account : AccountStatus → Bool
is_active_account AccountStatus.active = true
is_active_account _ = false

abbrev pub is_blocked_account : AccountStatus → Bool
is_blocked_account AccountStatus.blocked = true
is_blocked_account _ = false

abbrev pub is_available : AvailabilityStatus → Bool
is_available AvailabilityStatus.available = true
is_available _ = false

abbrev pub is_published : JobStatus → Bool
is_published JobStatus.published = true
is_published _ = false

abbrev pub is_pending_company : CompanyStatus → Bool
is_pending_company CompanyStatus.pending = true
is_pending_company _ = false

abbrev pub is_approved_company : CompanyStatus → Bool
is_approved_company CompanyStatus.approved = true
is_approved_company _ = false

abbrev pub is_pending_delivery : EmailDeliveryStatus → Bool
is_pending_delivery EmailDeliveryStatus.pending = true
is_pending_delivery _ = false

abbrev pub is_managed : UserType → Bool
is_managed UserType.administrator = false
is_managed _ = true

abbrev pub is_candidate : UserType → Bool
is_candidate UserType.candidate = true
is_candidate _ = false

abbrev pub is_administrator : UserType → Bool
is_administrator UserType.administrator = true
is_administrator _ = false

abbrev pub is_company : UserType → Bool
is_company UserType.company = true
is_company _ = false
