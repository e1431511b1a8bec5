-- ===== src/Jobs/Records.antt =====
-- app/jobs/services/job_record.py and job_skills.py, app/skills/services/catalog_skill.py
use seniors_empregabilidade.Prelude.{
  List, Option, Str, exists_where, map, select_where, ℕ, ◌&&◌, ◌==◌,
}
use seniors_empregabilidade.Database.Enums.{JobStatus, SkillType, WorkMode}
use seniors_empregabilidade.Database.Tables.{Db, Job, Skill}

pub record CatalogSkill : Type 0 where
  pub id : ℕ
  pub name : Str
  pub type : SkillType

abbrev pub catalog_skill_of : Skill → CatalogSkill
catalog_skill_of skill = record { id = skill.id; name = skill.name; type = skill.type }

pub record JobRecord : Type 0 where
  pub id : ℕ
  pub company_id : ℕ
  pub title : Str
  pub description : Str
  pub skills : List CatalogSkill
  pub work_mode : WorkMode
  pub closing_date : ℕ
  pub status : JobStatus
  pub published_at : Option ℕ
  pub created_at : ℕ

abbrev pub job_record_of : Job → List CatalogSkill → JobRecord
job_record_of job skills = record {
  id = job.id;
  company_id = job.company_id;
  title = job.title;
  description = job.description;
  skills = skills;
  work_mode = job.work_mode;
  closing_date = job.closing_date;
  status = job.status;
  published_at = job.published_at;
  created_at = job.created_at;
}

-- The catalog skills of one job. The database's `ORDER BY name, id` follows its collation and is a
-- parameter.
abbrev pub skills_of_job :
    (order_by_name : List Skill → List Skill) (job_id : ℕ) → Db → List CatalogSkill
skills_of_job order_by_name job_id db = map catalog_skill_of (
    order_by_name (
      select_where (λ s. exists_where (λ r. r.job_id == job_id && r.skill_id == s.id) db.job_skills)
        db.skills))
