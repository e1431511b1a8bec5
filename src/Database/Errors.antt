-- ===== src/Database/Errors.antt =====
-- The exceptions that the services raise: each module's exceptions.py, the domain exceptions, and
-- the database's integrity errors. `problem` gives the HTTP status and the stable code that the
-- client sees.
use seniors_empregabilidade.Prelude.{Str, codes, ℕ}
use seniors_empregabilidade.Database.AccountErrors.{
  CandidateError, IdentityError, RegistryError, SkillError,
}

-- `status_code` and `code` of `ProblemException`.
pub record Problem : Type 0 where
  pub status_code : ℕ
  pub code : Str

pub data ApplicationError : Type 0 where
  application_not_found application_already_closed application_already_exists job_not_found
        job_not_open application_status_transition_not_allowed :
      ApplicationError

pub data JobError : Type 0 where
  closing_date_in_the_past job_not_found job_already_open job_already_closed
        job_status_change_not_allowed :
      JobError

pub data AccountError : Type 0 where
  account_not_found account_already_blocked account_already_active invalid_completion_range :
      AccountError

pub data ContactError : Type 0 where
  professional_not_found professional_unavailable company_unavailable : ContactError

pub data NotificationError : Type 0 where
  notification_not_found invalid_notification_cursor : NotificationError

-- app/companies/domain/exceptions.py and the problems that app/companies/services raise in place.
pub data CompanyError : Type 0 where
  invalid_cnpj segment_blocked personal_email_domain invalid_decision company_not_found
        company_not_pending company_activity_required company_account_required cnpj_conflict
        email_conflict :
      CompanyError

-- The problems that app/auth raises.
pub data AuthError : Type 0 where
  invalid_access_token account_unavailable candidate_required administrator_required
        approved_company_required :
      AuthError

-- The constraints whose violation the services can meet, by their names in the schema.
pub data Constraint : Type 0 where
  uq_application_candidate_id_job_id fk_application_candidate_id_candidate
        fk_notification_user_id_app_user uq_app_user_email uq_app_user_identity_subject
        uq_company_cnpj uq_company_corporate_email uq_candidate_cpf ck_candidate_minimum_age
        fk_event_user_id_app_user ck_app_user_identity_subject_not_blank ck_company_corporate_email
        uq_resume_skill_resume_id_skill_id uq_skill_normalized_name uq_job_skill_job_id_skill_id
        fk_job_company_id_company fk_contact_request_sent_by_user_id_app_user
        ck_contact_request_message_length :
      Constraint

pub data Error : Type 0 where
  application : ApplicationError → Error
  job : JobError → Error
  account : AccountError → Error
  contact : ContactError → Error
  company : CompanyError → Error
  notification : NotificationError → Error
  auth : AuthError → Error
  candidate : CandidateError → Error
  identity : IdentityError → Error
  skill : SkillError → Error
  registry : RegistryError → Error
  -- `InvalidSkillNameError`
  invalid_skill_name : Error
  integrity : Constraint → Error
  -- Any other exception.
  unexpected : Error

unfoldable pub application_problem : ApplicationError → Problem
application_problem ApplicationError.application_not_found = record {
  status_code = 404;
  code = codes "application_not_found";
}
application_problem ApplicationError.application_already_closed = record {
  status_code = 409;
  code = codes "application_already_closed";
}
application_problem ApplicationError.application_already_exists = record {
  status_code = 409;
  code = codes "application_already_exists";
}
application_problem ApplicationError.job_not_found = record {
  status_code = 404;
  code = codes "job_not_found";
}
application_problem ApplicationError.job_not_open = record {
  status_code = 409;
  code = codes "job_not_open";
}
application_problem ApplicationError.application_status_transition_not_allowed = record {
  status_code = 409;
  code = codes "application_status_transition_not_allowed";
}

unfoldable pub job_problem : JobError → Problem
job_problem JobError.closing_date_in_the_past = record {
  status_code = 422;
  code = codes "closing_date_in_the_past";
}
job_problem JobError.job_not_found = record { status_code = 404; code = codes "job_not_found" }
job_problem JobError.job_already_open = record {
  status_code = 409;
  code = codes "job_already_open";
}
job_problem JobError.job_already_closed = record {
  status_code = 409;
  code = codes "job_already_closed";
}
job_problem JobError.job_status_change_not_allowed = record {
  status_code = 409;
  code = codes "job_status_change_not_allowed";
}

unfoldable pub account_problem : AccountError → Problem
account_problem AccountError.account_not_found = record {
  status_code = 404;
  code = codes "account_not_found";
}
account_problem AccountError.account_already_blocked = record {
  status_code = 409;
  code = codes "account_already_blocked";
}
account_problem AccountError.account_already_active = record {
  status_code = 409;
  code = codes "account_already_active";
}
account_problem AccountError.invalid_completion_range = record {
  status_code = 422;
  code = codes "invalid_completion_range";
}

unfoldable pub contact_problem : ContactError → Problem
contact_problem ContactError.professional_not_found = record {
  status_code = 404;
  code = codes "professional_not_found";
}
contact_problem ContactError.professional_unavailable = record {
  status_code = 409;
  code = codes "professional_unavailable";
}
contact_problem ContactError.company_unavailable = record {
  status_code = 403;
  code = codes "account_unavailable";
}
