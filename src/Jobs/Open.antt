-- ===== src/Jobs/Open.antt =====
-- app/jobs/services/open_job.py, and app/jobs/domain/policies/days_since_published.py
use seniors_empregabilidade.Prelude.{Bool, leb, not, ℕ, ◌&&◌, ◌-◌}
use seniors_empregabilidade.Database.Enums.{is_blocked_account, is_published}
use seniors_empregabilidade.Database.Tables.{AppUser, Job}

-- `is_open_at`: published and not past its closing date, on a row.
abbrev pub is_open_at : (to_local_date : ℕ → ℕ) (now : ℕ) → Job → Bool
is_open_at to_local_date now job =
    is_published job.status && leb (to_local_date now) job.closing_date

-- `publishing_company_is_not_blocked`, on a row of the company's account.
abbrev pub publishing_company_is_not_blocked : AppUser → Bool
publishing_company_is_not_blocked user = not (is_blocked_account user.account_status)

abbrev pub days_since_published : (to_local_date : ℕ → ℕ) (published_at now : ℕ) → ℕ
days_since_published to_local_date published_at now = to_local_date now - to_local_date published_at
