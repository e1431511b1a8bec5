-- ===== src/Tests/Publishing.antt =====
-- Runs of the skill catalog, of publishing and editing jobs, of the list of applicants and of
-- contacts.
use seniors_empregabilidade.Prelude.{
  List, Str, [], arith, codes, false, if◌then◌else◌, map, refl, true, ℕ, ◌==◌, ◌∷◌, ◌≡◌,
}
use seniors_empregabilidade.Database.Enums.{CompanyStatus, EmailDeliveryStatus, SkillType, WorkMode}
use seniors_empregabilidade.Database.Session.{ok}
use seniors_empregabilidade.Database.Tables.{Db, Skill}
use seniors_empregabilidade.Contacts.{
  check_and_send, contact_professional, insert_contact, send_contact,
}
use seniors_empregabilidade.Contacts.Outcome.{ContactOutcome, contact_professional-ContactOutcome}
use seniors_empregabilidade.Jobs.Applicants.{applicant_rows, automatic_match_candidate_ids}
use seniors_empregabilidade.Jobs.Applicants.Listing.{
  list_job_applicants, listed_applicants, listed_scores, summary_of,
}
use seniors_empregabilidade.Jobs.Compatibility.{half_even, half_up, percentage, places, score}
use seniors_empregabilidade.Jobs.Publish.{CreateJobRequest, UpdateJobRequest}
use seniors_empregabilidade.Jobs.Records.{CatalogSkill}
use seniors_empregabilidade.Notifications.Email.{sends_email}
use seniors_empregabilidade.Notifications.Notify.{new_notification, notify_user}
use seniors_empregabilidade.Skills.Name.{Unicode, normalize_skill_name, parse_skill_name}
use seniors_empregabilidade.Skills.Resolve.{
  SkillRequest, by_normalized_name, create_missing, find_or_create_skills, resolve_wanted,
}
use seniors_empregabilidade.Skills.Resolve.Outcome.{
  ResolveOutcome, find_or_create_skills-ResolveOutcome, find_or_create_skills_twice,
}
use seniors_empregabilidade.Tests.Samples.{company, sample, server}

-- Names that differ by nothing but spaces and the letter "A" are one name.
abbrev unicode : Unicode
unicode = record {
  casefold = map (λ c. if c == 65 then 97 else c);
  nfkd = λ s. s;
  is_ignored = λ c. false;
  is_control = λ c. false;
}

abbrev catalog_skill : (id : ℕ) → Str → Skill
catalog_skill id name = record {
  id = id;
  name = name;
  normalized_name = name;
  type = SkillType.hard;
  is_active = true;
}

-- The small database, with the skills of its job, and its company approved.
abbrev with_catalog : Db
with_catalog = record sample {
  skills = catalog_skill 31 (codes "aa") ∷ catalog_skill 32 (codes "b") ∷ [];
  companies = company CompanyStatus.approved ∷ [];
}

abbrev requested : List SkillRequest
requested =
    record { name = codes " c  d"; type = SkillType.hard }
    ∷ record { name = codes "AA"; type = SkillType.hard }
    ∷ record { name = codes "c d "; type = SkillType.hard }
    ∷ []

-- Two names, of which one is new.
resolved_entries :
    (find_or_create_skills unicode server requested with_catalog).0
    ≡ ok (
        record { id = 101; name = codes "c d"; type = SkillType.hard }
        ∷ record { id = 31; name = codes "aa"; type = SkillType.hard }
        ∷ [])
unfolding find_or_create_skills by_normalized_name parse_skill_name normalize_skill_name
    resolve_wanted create_missing
resolved_entries = refl

find_or_create_skills-ResolveOutcome_example :
    ResolveOutcome unicode server requested with_catalog
      (find_or_create_skills unicode server requested with_catalog)
find_or_create_skills-ResolveOutcome_example =
    find_or_create_skills-ResolveOutcome unicode server requested with_catalog

abbrev known_name : List SkillRequest
known_name = record { name = codes "AA"; type = SkillType.hard } ∷ []

abbrev known_entries : List CatalogSkill
known_entries = record { id = 31; name = codes "aa"; type = SkillType.hard } ∷ []

known_name-resolves :
    find_or_create_skills unicode server known_name with_catalog ≡ (ok known_entries, with_catalog)
unfolding find_or_create_skills by_normalized_name parse_skill_name normalize_skill_name
    resolve_wanted create_missing
known_name-resolves = refl

find_or_create_skills_twice_example :
    find_or_create_skills unicode server known_name with_catalog ≡ (ok known_entries, with_catalog)
find_or_create_skills_twice_example =
    find_or_create_skills_twice unicode server server known_name with_catalog with_catalog
      known_entries known_name-resolves

abbrev new_job_request : CreateJobRequest
new_job_request = record {
  title = codes "Vaga nova";
  description = codes "";
  skills = requested;
  work_mode = WorkMode.remote;
  closing_date = 9;
}

abbrev edit_request : UpdateJobRequest
edit_request = record { title = codes "Vaga editada"; description = codes ""; skills = requested }

contact_professional-ContactOutcome_example :
    ContactOutcome server 1 1 10 3
      (codes "Vamos conversar?")
      with_catalog
      (contact_professional server 1 1 10 3 (codes "Vamos conversar?") with_catalog)
contact_professional-ContactOutcome_example =
    contact_professional-ContactOutcome server 1 1 10 3 (codes "Vamos conversar?") with_catalog
      (refl, (refl, tt)) ((λ e. omega (arith, e)), ((λ e. omega (arith, e)), tt))

-- The contact of the run is sent.
contact_sent :
    (contact_professional server 1 1 10 3 (codes "Vamos conversar?") with_catalog).0
    ≡ ok (record {
      id = 102;
      job_id = 10;
      candidate_id = 3;
      created_at = 5;
      email_status = EmailDeliveryStatus.pending;
    })
unfolding contact_professional check_and_send send_contact insert_contact list_job_applicants
    listed_applicants listed_scores applicant_rows automatic_match_candidate_ids summary_of
    notify_user new_notification score percentage places half_even half_up sends_email
contact_sent = refl
