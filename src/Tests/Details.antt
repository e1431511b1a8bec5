-- ===== src/Tests/Details.antt =====
-- Runs of the detail of a job.
use seniors_empregabilidade.Prelude.{false, refl, true, ◌≡◌}
use seniors_empregabilidade.Database.Enums.{CompanyStatus, JobStatus}
use seniors_empregabilidade.Database.Session.{ok}
use seniors_empregabilidade.Database.Tables.{Company, Job}
use seniors_empregabilidade.Applications.Submit.{submit_application}
use seniors_empregabilidade.Jobs.Detail.{JobDetail, detail_of, get_job_detail}
use seniors_empregabilidade.Jobs.Detail.Applicable.{is_applicable-submit_application, is_ok}
use seniors_empregabilidade.Tests.Samples.{company, job, same_day, sample, server}

abbrev published_row : Job × Company
published_row = (job JobStatus.published, company CompanyStatus.pending)

-- The detail of the published job for a candidate without an application to it.
abbrev shown_detail : JobDetail
shown_detail = detail_of same_day (λ skills. skills) 3 6 published_row sample

detail_of_sample :
    get_job_detail same_day (λ skills. skills) 10 3 6 sample ≡ (ok shown_detail, sample)
unfolding get_job_detail
detail_of_sample = refl

shown_detail_applicable : shown_detail.is_applicable ≡ true
unfolding detail_of
shown_detail_applicable = refl

-- Past the closing date the same job is shown, and not applicable.
past_closing_date :
    (detail_of same_day (λ skills. skills) 3 100 published_row sample).is_applicable ≡ false
unfolding detail_of
past_closing_date = refl

is_applicable-submit_application_example :
    shown_detail.is_applicable ≡ is_ok (submit_application same_day server 10 3 6 sample).0
is_applicable-submit_application_example =
    is_applicable-submit_application same_day (λ skills. skills) server 10 3 6 sample shown_detail
      refl detail_of_sample
