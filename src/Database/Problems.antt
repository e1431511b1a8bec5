-- ===== src/Database/Problems.antt =====
-- The HTTP status and the code of the exceptions of app/candidates, app/identity and app/skills.
use seniors_empregabilidade.Prelude.{codes}
use seniors_empregabilidade.Database.AccountErrors.{CandidateError, IdentityError, SkillError}
use seniors_empregabilidade.Database.Errors.{Problem}

unfoldable pub candidate_problem : CandidateError → Problem
candidate_problem CandidateError.invalid_cpf = record {
  status_code = 422;
  code = codes "invalid_cpf";
}
candidate_problem CandidateError.minimum_age_not_met = record {
  status_code = 422;
  code = codes "minimum_age_not_met";
}
candidate_problem CandidateError.terms_acceptance_required = record {
  status_code = 422;
  code = codes "terms_acceptance_required";
}
candidate_problem CandidateError.cpf_already_registered = record {
  status_code = 409;
  code = codes "cpf_already_registered";
}
candidate_problem CandidateError.email_already_registered = record {
  status_code = 409;
  code = codes "email_already_registered";
}
candidate_problem CandidateError.profile_not_found = record {
  status_code = 404;
  code = codes "profile_not_found";
}
candidate_problem CandidateError.professional_not_found = record {
  status_code = 404;
  code = codes "professional_not_found";
}
candidate_problem CandidateError.experience_not_found = record {
  status_code = 404;
  code = codes "experience_not_found";
}
candidate_problem CandidateError.invalid_experience_period = record {
  status_code = 422;
  code = codes "invalid_experience_period";
}
candidate_problem CandidateError.education_not_found = record {
  status_code = 404;
  code = codes "education_not_found";
}
candidate_problem CandidateError.invalid_education_period = record {
  status_code = 422;
  code = codes "invalid_education_period";
}
candidate_problem CandidateError.skill_not_found = record {
  status_code = 404;
  code = codes "skill_not_found";
}
candidate_problem CandidateError.skill_already_added = record {
  status_code = 409;
  code = codes "skill_already_added";
}
candidate_problem CandidateError.certification_not_found = record {
  status_code = 404;
  code = codes "certification_not_found";
}
candidate_problem CandidateError.invalid_certification_period = record {
  status_code = 422;
  code = codes "invalid_certification_period";
}
candidate_problem CandidateError.certification_document_not_found = record {
  status_code = 404;
  code = codes "certification_document_not_found";
}
candidate_problem CandidateError.unsupported_document_type = record {
  status_code = 422;
  code = codes "unsupported_document_type";
}
candidate_problem CandidateError.document_too_large = record {
  status_code = 422;
  code = codes "document_too_large";
}

unfoldable pub identity_problem : IdentityError → Problem
identity_problem IdentityError.identity_provider_unavailable = record {
  status_code = 503;
  code = codes "identity_provider_unavailable";
}
identity_problem IdentityError.invalid_credentials = record {
  status_code = 401;
  code = codes "invalid_credentials";
}
identity_problem IdentityError.invalid_access_token = record {
  status_code = 401;
  code = codes "invalid_access_token";
}
identity_problem IdentityError.identity_conflict = record {
  status_code = 409;
  code = codes "identity_conflict";
}
identity_problem IdentityError.identity_confirmation_required = record {
  status_code = 409;
  code = codes "identity_confirmation_required";
}
identity_problem IdentityError.password_policy_violation = record {
  status_code = 422;
  code = codes "password_policy_violation";
}
identity_problem IdentityError.too_many_attempts = record {
  status_code = 429;
  code = codes "too_many_attempts";
}
identity_problem IdentityError.invalid_verification_code = record {
  status_code = 422;
  code = codes "invalid_verification_code";
}
identity_problem IdentityError.authentication_challenge_required = record {
  status_code = 403;
  code = codes "authentication_challenge_required";
}

unfoldable pub skill_problem : SkillError → Problem
skill_problem SkillError.catalog_skill_not_found = record {
  status_code = 404;
  code = codes "skill_not_found";
}
skill_problem SkillError.skill_name_conflict = record {
  status_code = 409;
  code = codes "skill_name_conflict";
}
