-- ===== src/Database/AccountErrors.antt =====
-- The exceptions of candidates, identities, the skill catalog and the company registry:
-- app/candidates/exceptions.py, app/identity/exceptions.py, app/skills (exceptions.py) and
-- app/companies/integrations/brasil_api.py.

pub data CandidateError : Type 0 where
  invalid_cpf minimum_age_not_met terms_acceptance_required cpf_already_registered
        email_already_registered profile_not_found professional_not_found experience_not_found
        invalid_experience_period education_not_found invalid_education_period skill_not_found
        skill_already_added certification_not_found invalid_certification_period
        certification_document_not_found unsupported_document_type document_too_large :
      CandidateError

pub data IdentityError : Type 0 where
  identity_provider_unavailable invalid_credentials invalid_access_token identity_conflict
        identity_confirmation_required password_policy_violation too_many_attempts
        invalid_verification_code authentication_challenge_required :
      IdentityError

pub data SkillError : Type 0 where
  catalog_skill_not_found skill_name_conflict : SkillError

pub data RegistryError : Type 0 where
  registry_record_not_found registry_provider_unavailable : RegistryError
