-- ===== src/Tests/Samples.antt =====
-- A small database: one company with one open job, and two candidates of whom one has applied.
use seniors_empregabilidade.Prelude.{[], codes, false, none, some, true, ℕ, ◌+◌, ◌∷◌}
use seniors_empregabilidade.Database.Enums.{
  AccountStatus, ApplicationStatus, ApplicationType, AvailabilityStatus, CompanyStatus,
  EmailDeliveryStatus, JobStatus, UserType, WorkMode,
}
use seniors_empregabilidade.Database.Session.{Server}
use seniors_empregabilidade.Database.Tables.{
  AppUser, Application, Candidate, Company, Db, EmailDelivery, Job, Notification, Resume,
}
use seniors_empregabilidade.Notifications.Types.{NotificationType, value}

abbrev pub user : (id : ℕ) → UserType → AccountStatus → AppUser
user id type status = record {
  id = id;
  email = codes "someone@example.com";
  identity_subject = some (id ∷ []);
  user_type = type;
  account_status = status;
  created_at = 0;
  updated_at = 0;
}

abbrev pub company : CompanyStatus → Company
company status = record {
  id = 1;
  cnpj = codes "11222333000181";
  legal_name = codes "Empresa";
  trade_name = none;
  primary_cnae = some (codes "62.01-5");
  corporate_email = codes "rh@empresa.com.br";
  corporate_email_confirmed = true;
  contact_email = none;
  contact_phone = none;
  company_size = none;
  industry = none;
  linkedin_url = none;
  linkedin_verified = false;
  address_id = none;
  status = status;
  terms_version_accepted = none;
  terms_accepted_at = none;
}

abbrev pub candidate : (id : ℕ) → Candidate
candidate id = record {
  id = id;
  full_name = codes "Ana";
  cpf = codes "52998224725";
  birth_date = (1960, 1, 1);
  phone = codes "";
  city = none;
  state = none;
  availability = AvailabilityStatus.available;
  accepts_automatic_application = true;
  terms_version_accepted = none;
  terms_accepted_at = none;
}

abbrev pub resume : (id candidate_id : ℕ) → Resume
resume id candidate_id = record {
  id = id;
  candidate_id = candidate_id;
  summary = none;
  employment_status = none;
  employment_status_since = none;
  desired_salary = none;
  availability_start_date = none;
  completion_percentage = 0;
}

abbrev pub job : JobStatus → Job
job status = record {
  id = 10;
  company_id = 1;
  title = codes "Vaga";
  description = codes "";
  work_mode = WorkMode.remote;
  location = none;
  contract_type = none;
  salary_max = none;
  status = status;
  published_at = some 0;
  closing_date = 9;
  outcome = none;
  featured = false;
  featured_until = none;
  created_at = 0;
  updated_at = 0;
}

abbrev pub application : ApplicationStatus → Application
application status = record {
  id = 20;
  candidate_id = 2;
  job_id = 10;
  type = ApplicationType.active;
  status = status;
  match_score = none;
  closed_at = none;
  matched_requirements = some 1;
  total_requirements = some 2;
  reason = none;
  created_at = 0;
  updated_at = 0;
}

abbrev pub notification : (id user_id : ℕ) → NotificationType → Notification
notification id user_id type = record {
  id = id;
  user_id = user_id;
  type = value type;
  message = codes "mensagem";
  read = false;
  details = none;
  created_at = 0;
}

abbrev pub delivery : (id notification_id : ℕ) → EmailDelivery
delivery id notification_id = record {
  id = id;
  notification_id = notification_id;
  status = EmailDeliveryStatus.pending;
  attempts = 0;
  next_attempt_at = 0;
  sent_at = none;
  last_error = none;
  created_at = 0;
}

-- The company is user 1, the candidates 2 and 3, the administrator 4. The job requires skills 31
-- and 32; candidate 3 has both.
abbrev pub sample : Db
sample = record {
  users =
      user 1 UserType.company AccountStatus.active
      ∷ user 2 UserType.candidate AccountStatus.active
      ∷ user 3 UserType.candidate AccountStatus.active
      ∷ user 4 UserType.administrator AccountStatus.active
      ∷ [];
  companies = company CompanyStatus.pending ∷ [];
  addresses = [];
  candidates = candidate 2 ∷ candidate 3 ∷ [];
  resumes = resume 42 2 ∷ resume 43 3 ∷ [];
  skills = [];
  resume_skills =
      record { resume_id = 42; skill_id = 31 }
      ∷ record { resume_id = 43; skill_id = 31 }
      ∷ record { resume_id = 43; skill_id = 32 }
      ∷ [];
  jobs = job JobStatus.published ∷ [];
  job_skills = record { job_id = 10; skill_id = 31 } ∷ record { job_id = 10; skill_id = 32 } ∷ [];
  applications = application ApplicationStatus.under_review ∷ [];
  notifications =
      notification 50 1 NotificationType.application_received
      ∷ notification 51 2 NotificationType.application_status_changed
      ∷ [];
  deliveries = delivery 60 50 ∷ delivery 61 51 ∷ [];
  contacts = [];
  events = [];
}

-- The calendar day of an instant counted in days.
abbrev pub same_day : ℕ → ℕ
same_day now = now

abbrev pub server : Server
server = record { uuid = λ n. 100 + n; now = 5 }
