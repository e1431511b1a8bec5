-- ===== src/Database/Tables.antt =====
-- app/db/models: the rows of the tables that the services read and write. An identifier is a
-- number that is only compared, an instant is a number of seconds, a date a number of days, and a
-- text is the list of its code points.
use seniors_empregabilidade.Prelude.{ℕ, Bool, Option, List, Str}
use seniors_empregabilidade.Database.Enums.{
  UserType, AccountStatus, CompanyStatus, SkillType, EmploymentStatus, AvailabilityStatus, WorkMode,
  JobStatus, JobOutcome, ApplicationType, ApplicationStatus, EmailDeliveryStatus,
}

pub record AppUser : Type 0 where
  pub id : ℕ
  pub email : Str
  pub identity_subject : Option Str
  pub user_type : UserType
  pub account_status : AccountStatus
  pub created_at : ℕ
  pub updated_at : ℕ

pub record Company : Type 0 where
  pub id : ℕ
  pub cnpj : Str
  pub legal_name : Str
  pub trade_name : Option Str
  pub primary_cnae : Option Str
  pub corporate_email : Str
  pub corporate_email_confirmed : Bool
  pub contact_email : Option Str
  pub contact_phone : Option Str
  pub company_size : Option Str
  pub industry : Option Str
  pub linkedin_url : Option Str
  pub linkedin_verified : Bool
  pub address_id : Option ℕ
  pub status : CompanyStatus
  pub terms_version_accepted : Option Str
  pub terms_accepted_at : Option ℕ

pub record Address : Type 0 where
  pub id : ℕ
  pub street : Str
  pub number : Str
  pub complement : Option Str
  pub neighborhood : Str
  pub city : Str
  pub state : Str
  pub zip_code : Str
  pub code : Option Str

pub record Candidate : Type 0 where
  pub id : ℕ
  pub full_name : Str
  pub cpf : Str
  pub birth_date : ℕ × ℕ × ℕ
  pub phone : Str
  pub city : Option Str
  pub state : Option Str
  pub availability : AvailabilityStatus
  pub accepts_automatic_application : Bool
  pub terms_version_accepted : Option Str
  pub terms_accepted_at : Option ℕ

pub record Resume : Type 0 where
  pub id : ℕ
  pub candidate_id : ℕ
  pub summary : Option Str
  pub employment_status : Option EmploymentStatus
  pub employment_status_since : Option ℕ
  pub desired_salary : Option ℕ
  pub availability_start_date : Option ℕ
  pub completion_percentage : ℕ

pub record Skill : Type 0 where
  pub id : ℕ
  pub name : Str
  pub normalized_name : Str
  pub type : SkillType
  pub is_active : Bool

pub record ResumeSkill : Type 0 where
  pub resume_id : ℕ
  pub skill_id : ℕ

pub record JobSkill : Type 0 where
  pub job_id : ℕ
  pub skill_id : ℕ

-- `salary_max` is in cents.
pub record Job : Type 0 where
  pub id : ℕ
  pub company_id : ℕ
  pub title : Str
  pub description : Str
  pub work_mode : WorkMode
  pub location : Option Str
  pub contract_type : Option Str
  pub salary_max : Option ℕ
  pub status : JobStatus
  pub published_at : Option ℕ
  pub closing_date : ℕ
  pub outcome : Option JobOutcome
  pub featured : Bool
  pub featured_until : Option ℕ
  pub created_at : ℕ
  pub updated_at : ℕ

pub record Application : Type 0 where
  pub id : ℕ
  pub candidate_id : ℕ
  pub job_id : ℕ
  pub type : ApplicationType
  pub status : ApplicationStatus
  pub match_score : Option ℕ
  pub closed_at : Option ℕ
  pub matched_requirements : Option ℕ
  pub total_requirements : Option ℕ
  pub reason : Option Str
  pub created_at : ℕ
  pub updated_at : ℕ

-- The JSON objects that the services store in `notification.details`: identifiers by key.
pub data NotificationDetails : Type 0 where
  application_received : (application_id job_id : ℕ) → NotificationDetails
  application_status_changed :
      (application_id job_id : ℕ) (status : ApplicationStatus) → NotificationDetails
  company_reviewed : (company_id : ℕ) → NotificationDetails
  contact_received : (contact_id job_id : ℕ) → NotificationDetails

-- `type` holds the stored text of a notification type.
pub record Notification : Type 0 where
  pub id : ℕ
  pub user_id : ℕ
  pub type : Str
  pub message : Str
  pub read : Bool
  pub details : Option NotificationDetails
  pub created_at : ℕ

pub record EmailDelivery : Type 0 where
  pub id : ℕ
  pub notification_id : ℕ
  pub status : EmailDeliveryStatus
  pub attempts : ℕ
  pub next_attempt_at : ℕ
  pub sent_at : Option ℕ
  pub last_error : Option Str
  pub created_at : ℕ

pub record ContactRequest : Type 0 where
  pub id : ℕ
  pub company_id : ℕ
  pub sent_by_user_id : Option ℕ
  pub candidate_id : ℕ
  pub job_id : ℕ
  pub message : Str
  pub notification_id : ℕ
  pub created_at : ℕ

-- The JSON object that an account status change stores in `event.details`.
pub record StatusChange : Type 0 where
  pub target_user_id : ℕ
  pub previous_status : AccountStatus
  pub new_status : AccountStatus
  pub reason : Str

pub record Event : Type 0 where
  pub id : ℕ
  pub user_id : Option ℕ
  pub event_type : Str
  pub details : Option StatusChange
  pub created_at : ℕ

-- The tables together.
pub record Db : Type 0 where
  pub users : List AppUser
  pub companies : List Company
  pub addresses : List Address
  pub candidates : List Candidate
  pub resumes : List Resume
  pub skills : List Skill
  pub resume_skills : List ResumeSkill
  pub jobs : List Job
  pub job_skills : List JobSkill
  pub applications : List Application
  pub notifications : List Notification
  pub deliveries : List EmailDelivery
  pub contacts : List ContactRequest
  pub events : List Event
