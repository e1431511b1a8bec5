-- ===== src/Jobs/Publish/Links.antt =====
-- Linking the skills that a list of names resolved to: no link is there twice.
use seniors_empregabilidade.Prelude.{
  All, All-map_implies, IsDistinct, IsIn, IsIn-All, IsKeyed, IsKeyed-same, List, [], ap, arith,
  exists_where, false, map, mem, not, refl, select_where, subst, sym, ℕ, ◌==◌, ◌||◌, ◌∙◌, ◌∷◌, ◌≡◌,
  ◌≢◌,
}
use seniors_empregabilidade.Database.Session.{ok}
use seniors_empregabilidade.Database.Tables.{Db, JobSkill, Skill}
use seniors_empregabilidade.Jobs.Publish.{insert_job_skills, is_link}
use seniors_empregabilidade.Jobs.Records.{CatalogSkill}
use seniors_empregabilidade.Skills.Resolve.{WantedSkill, wanted_key}
use seniors_empregabilidade.Skills.Resolve.Laws.{AreEntriesOf, skill_id_of}

-- The links of one job, each new one before the others.
abbrev pub link_rows : (job_id : ℕ) → List CatalogSkill → List JobSkill → List JobSkill
link_rows job_id [] rows = rows
link_rows job_id (skill ∷ skills) rows =
    link_rows job_id skills (record { job_id = job_id; skill_id = skill.id } ∷ rows)

abbrev pub with_links : Db → List JobSkill → Db
with_links db rows = record db { job_skills = rows }

abbrev pub AreUnlinked : (job_id : ℕ) → List CatalogSkill → List JobSkill → Type 0
AreUnlinked job_id skills rows =
    All (λ (e : CatalogSkill). exists_where (is_link job_id e.id) rows ≡ false) skills

still_unlinked :
    (job_id skill_id : ℕ) (skills : List CatalogSkill) (rows : List JobSkill)
    → All (λ (e : CatalogSkill). e.id ≢ skill_id) skills
    → AreUnlinked job_id skills rows
    → AreUnlinked job_id skills (record { job_id = job_id; skill_id = skill_id } ∷ rows)
still_unlinked job_id skill_id [] rows d u = tt
still_unlinked job_id skill_id (e ∷ skills) rows d u =
    (ground (arith, d.0, u.0), still_unlinked job_id skill_id skills rows d.1 u.1)

pub insert_job_skills_ok :
    (job_id : ℕ) (skills : List CatalogSkill) (db : Db)
    → IsKeyed (λ (e : CatalogSkill). e.id) skills
    → AreUnlinked job_id skills db.job_skills
    → insert_job_skills job_id skills db
      ≡ (ok tt, with_links db (link_rows job_id skills db.job_skills))
unfolding insert_job_skills
insert_job_skills_ok job_id [] db k u = refl
insert_job_skills_ok job_id (e ∷ skills) db k u = rw u.0 (
    insert_job_skills_ok job_id skills
      (with_links db (record { job_id = job_id; skill_id = e.id } ∷ db.job_skills)) k.1
      (still_unlinked job_id e.id skills db.job_skills k.0 u.1))

-- The other entries stand for other names, so they are other rows.
other_entries :
    (skills : List Skill) (s : Skill) (wanted : List WantedSkill) (entries : List CatalogSkill)
    → IsKeyed skill_id_of skills
    → IsIn s skills
    → AreEntriesOf skills wanted entries
    → All (λ w. wanted_key w ≢ s.normalized_name) wanted
    → All (λ (e : CatalogSkill). e.id ≢ s.id) entries
other_entries skills s [] [] k m a d = tt
other_entries skills s [] (e ∷ entries) k m a d = absurd a
other_entries skills s (w ∷ wanted) [] k m a d = absurd a
other_entries skills s (w ∷ wanted) (e ∷ entries) k m ((t, (n, (f, g))), a) d = (
  λ h.
      let same : t ≡ s =
        IsKeyed-same skill_id_of skills t s k n m (sym (ap (λ (e : CatalogSkill). e.id) g) ∙ h) in
      d.0 (sym f ∙ ap (λ (s : Skill). s.normalized_name) same),
  other_entries skills s wanted entries k m a d.1,
)

pub entries-IsKeyed :
    (skills : List Skill) (wanted : List WantedSkill) (entries : List CatalogSkill)
    → IsKeyed skill_id_of skills
    → IsDistinct wanted_key wanted
    → AreEntriesOf skills wanted entries
    → IsKeyed (λ (e : CatalogSkill). e.id) entries
entries-IsKeyed skills [] [] k d a = tt
entries-IsKeyed skills [] (e ∷ entries) k d a = absurd a
entries-IsKeyed skills (w ∷ wanted) [] k d a = absurd a
entries-IsKeyed skills (w ∷ wanted) (e ∷ entries) k d ((s, (m, (f, g))), a) = (
  subst (λ i. All (λ (e : CatalogSkill). e.id ≢ i) entries)
      (sym (ap (λ (e : CatalogSkill). e.id) g))
      (other_entries skills s wanted entries k m a
        (All-map_implies _ _ wanted (λ v n. subst (λ t. wanted_key v ≢ t) (sym f) n) d.0)),
  entries-IsKeyed skills wanted entries k d.1 a,
)

abbrev pub entry_ids : List CatalogSkill → List ℕ
entry_ids skills = map (λ (e : CatalogSkill). e.id) skills

-- The job has links to exactly these skills, and the links of other jobs are those of before.
pub record LinksExactly (job_id : ℕ) (skills : List CatalogSkill) (before after : List JobSkill)
    : Type 0 where
  pub own :
      (skill_id : ℕ)
      → exists_where (is_link job_id skill_id) after ≡ mem skill_id (entry_ids skills)
  pub others :
      (other skill_id : ℕ)
      → other ≢ job_id
      → exists_where (is_link other skill_id) after ≡ exists_where (is_link other skill_id) before

link_rows_own :
    (job_id skill_id : ℕ) (skills : List CatalogSkill) (rows : List JobSkill)
    → exists_where (is_link job_id skill_id) (link_rows job_id skills rows)
      ≡ (exists_where (is_link job_id skill_id) rows || mem skill_id (entry_ids skills))
link_rows_own job_id skill_id [] rows = ground arith
link_rows_own job_id skill_id (e ∷ skills) rows =
    link_rows_own job_id skill_id skills (record { job_id = job_id; skill_id = e.id } ∷ rows)
    ∙ ground arith

link_rows_others :
    (job_id other skill_id : ℕ) (skills : List CatalogSkill) (rows : List JobSkill)
    → other ≢ job_id
    → exists_where (is_link other skill_id) (link_rows job_id skills rows)
      ≡ exists_where (is_link other skill_id) rows
link_rows_others job_id other skill_id [] rows n = refl
link_rows_others job_id other skill_id (e ∷ skills) rows n =
    link_rows_others job_id other skill_id skills
      (record { job_id = job_id; skill_id = e.id } ∷ rows) n
    ∙ ground (arith, n)

abbrev pub other_links : (job_id : ℕ) → List JobSkill → List JobSkill
other_links job_id rows = select_where (λ (r : JobSkill). not (r.job_id == job_id)) rows

no_own :
    (job_id skill_id : ℕ) (rows : List JobSkill)
    → exists_where (is_link job_id skill_id) (other_links job_id rows) ≡ false
no_own job_id skill_id [] = refl
no_own job_id skill_id (r ∷ rows) = ground (arith, no_own job_id skill_id rows)

same_others :
    (job_id other skill_id : ℕ) (rows : List JobSkill)
    → other ≢ job_id
    → exists_where (is_link other skill_id) (other_links job_id rows)
      ≡ exists_where (is_link other skill_id) rows
same_others job_id other skill_id [] n = refl
same_others job_id other skill_id (r ∷ rows) n =
    ground (arith, n, same_others job_id other skill_id rows n)

-- Linking after the job's links have been deleted.
pub relinked-LinksExactly :
    (job_id : ℕ) (skills : List CatalogSkill) (rows : List JobSkill)
    → LinksExactly job_id skills rows (link_rows job_id skills (other_links job_id rows))
relinked-LinksExactly job_id skills rows = record {
  own = λ s. link_rows_own job_id s skills (other_links job_id rows) ∙ rw (no_own job_id s rows);
  others = λ o s n.
      link_rows_others job_id o s skills (other_links job_id rows) n
      ∙ same_others job_id o s rows n;
}

-- Linking a job that has no links yet.
pub linked-LinksExactly :
    (job_id : ℕ) (skills : List CatalogSkill) (rows : List JobSkill)
    → ((s : ℕ) → exists_where (is_link job_id s) rows ≡ false)
    → LinksExactly job_id skills rows (link_rows job_id skills rows)
linked-LinksExactly job_id skills rows none_yet = record {
  own = λ s. link_rows_own job_id s skills rows ∙ rw (none_yet s);
  others = λ o s n. link_rows_others job_id o s skills rows n;
}

pub all_unlinked :
    (job_id : ℕ) (skills : List CatalogSkill) (rows : List JobSkill)
    → ((s : ℕ) → exists_where (is_link job_id s) rows ≡ false)
    → AreUnlinked job_id skills rows
all_unlinked job_id skills rows h = IsIn-All _ skills (λ e m. h e.id)

pub others_unlinked :
    (job_id : ℕ) (skills : List CatalogSkill) (rows : List JobSkill)
    → AreUnlinked job_id skills (other_links job_id rows)
others_unlinked job_id skills rows =
    all_unlinked job_id skills (other_links job_id rows) (λ s. no_own job_id s rows)

pub unused_job :
    (job_id : ℕ) (rows : List JobSkill)
    → All (λ (r : JobSkill). r.job_id ≢ job_id) rows
    → (s : ℕ) → exists_where (is_link job_id s) rows ≡ false
unused_job job_id [] all s = refl
unused_job job_id (r ∷ rows) all s = ground (arith, all.0, unused_job job_id rows all.1 s)
