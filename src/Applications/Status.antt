-- ===== src/Applications/Status.antt =====
-- The statuses of an application: the constant sets and tables that the services test, and the
-- steps that they allow.
use seniors_empregabilidade.Prelude.{
  Bool, Str, codes, false, inl, inr, not, refl, true, ◌≡◌, ◌≢◌, ◌⊎◌,
}
use seniors_empregabilidade.Database.Enums.{ApplicationStatus}

-- `_TERMINAL_STATUSES`
abbrev pub is_terminal : ApplicationStatus → Bool
is_terminal ApplicationStatus.hired = true
is_terminal ApplicationStatus.not_selected = true
is_terminal ApplicationStatus.withdrawn = true
is_terminal ApplicationStatus.expired = true
is_terminal _ = false

-- `_ACTIVE_STATUSES` of withdraw_application.py.
abbrev pub is_active : ApplicationStatus → Bool
is_active ApplicationStatus.applied = true
is_active ApplicationStatus.under_review = true
is_active ApplicationStatus.in_selection_process = true
is_active _ = false

-- `target in _ALLOWED_TRANSITIONS.get(current, frozenset())`
abbrev pub is_allowed : (current target : ApplicationStatus) → Bool
is_allowed ApplicationStatus.applied ApplicationStatus.under_review = true
is_allowed ApplicationStatus.under_review ApplicationStatus.in_selection_process = true
is_allowed ApplicationStatus.under_review ApplicationStatus.not_selected = true
is_allowed ApplicationStatus.in_selection_process ApplicationStatus.hired = true
is_allowed ApplicationStatus.in_selection_process ApplicationStatus.not_selected = true
is_allowed _ _ = false

-- `CompanyApplicationStatus`: what a company may ask for.
pub data CompanyApplicationStatus : Type 0 where
  under_review in_selection_process hired not_selected : CompanyApplicationStatus

-- `_COMPANY_STATUSES`: the status and its wording in the notification.
abbrev pub target_status : CompanyApplicationStatus → ApplicationStatus
target_status CompanyApplicationStatus.under_review = ApplicationStatus.under_review
target_status CompanyApplicationStatus.in_selection_process = ApplicationStatus.in_selection_process
target_status CompanyApplicationStatus.hired = ApplicationStatus.hired
target_status CompanyApplicationStatus.not_selected = ApplicationStatus.not_selected

unfoldable pub status_label : CompanyApplicationStatus → Str
status_label CompanyApplicationStatus.under_review = codes "em análise"
status_label CompanyApplicationStatus.in_selection_process = codes "em processo seletivo"
status_label CompanyApplicationStatus.hired = codes "contratado"
status_label CompanyApplicationStatus.not_selected = codes "não selecionado"

-- The life of an application, as the product defines it: a company moves it on, a candidate
-- withdraws it while it is active.
pub data Step : ApplicationStatus → ApplicationStatus → Type 0 where
  review : Step ApplicationStatus.applied ApplicationStatus.under_review
  shortlist : Step ApplicationStatus.under_review ApplicationStatus.in_selection_process
  hire : Step ApplicationStatus.in_selection_process ApplicationStatus.hired
  reject_reviewed : Step ApplicationStatus.under_review ApplicationStatus.not_selected
  reject_shortlisted : Step ApplicationStatus.in_selection_process ApplicationStatus.not_selected
  withdraw_applied : Step ApplicationStatus.applied ApplicationStatus.withdrawn
  withdraw_reviewed : Step ApplicationStatus.under_review ApplicationStatus.withdrawn
  withdraw_shortlisted : Step ApplicationStatus.in_selection_process ApplicationStatus.withdrawn

pub is_allowed-Step : (s t : ApplicationStatus) → is_allowed s t ≡ true → Step s t
is_allowed-Step ApplicationStatus.applied ApplicationStatus.under_review h = review
is_allowed-Step ApplicationStatus.under_review ApplicationStatus.in_selection_process h = shortlist
is_allowed-Step ApplicationStatus.under_review ApplicationStatus.not_selected h = reject_reviewed
is_allowed-Step ApplicationStatus.in_selection_process ApplicationStatus.hired h = hire
is_allowed-Step ApplicationStatus.in_selection_process ApplicationStatus.not_selected h =
    reject_shortlisted
is_allowed-Step _ _ h = cc

pub is_active-Step :
    (s : ApplicationStatus) → is_active s ≡ true → Step s ApplicationStatus.withdrawn
is_active-Step ApplicationStatus.applied h = withdraw_applied
is_active-Step ApplicationStatus.under_review h = withdraw_reviewed
is_active-Step ApplicationStatus.in_selection_process h = withdraw_shortlisted
is_active-Step _ h = cc

-- A step is an allowed transition or a withdrawal.
pub Step-is_allowed :
    {s t : ApplicationStatus}
    → Step s t
    → (is_allowed s t ≡ true) ⊎ (t ≡ ApplicationStatus.withdrawn)
Step-is_allowed review = inl refl
Step-is_allowed shortlist = inl refl
Step-is_allowed hire = inl refl
Step-is_allowed reject_reviewed = inl refl
Step-is_allowed reject_shortlisted = inl refl
Step-is_allowed withdraw_applied = inr refl
Step-is_allowed withdraw_reviewed = inr refl
Step-is_allowed withdraw_shortlisted = inr refl

pub target_status-ne-withdrawn :
    (c : CompanyApplicationStatus) → target_status c ≢ ApplicationStatus.withdrawn
target_status-ne-withdrawn CompanyApplicationStatus.under_review h = cc
target_status-ne-withdrawn CompanyApplicationStatus.in_selection_process h = cc
target_status-ne-withdrawn CompanyApplicationStatus.hired h = cc
target_status-ne-withdrawn CompanyApplicationStatus.not_selected h = cc

-- An active status is one that is not terminal.
pub is_active-not : (s : ApplicationStatus) → is_active s ≡ not (is_terminal s)
is_active-not ApplicationStatus.applied = refl
is_active-not ApplicationStatus.under_review = refl
is_active-not ApplicationStatus.in_selection_process = refl
is_active-not ApplicationStatus.hired = refl
is_active-not ApplicationStatus.not_selected = refl
is_active-not ApplicationStatus.withdrawn = refl
is_active-not ApplicationStatus.expired = refl

-- No step leaves a terminal status.
pub Step-is_terminal : {s t : ApplicationStatus} → Step s t → is_terminal s ≡ false
Step-is_terminal review = refl
Step-is_terminal shortlist = refl
Step-is_terminal hire = refl
Step-is_terminal reject_reviewed = refl
Step-is_terminal reject_shortlisted = refl
Step-is_terminal withdraw_applied = refl
Step-is_terminal withdraw_reviewed = refl
Step-is_terminal withdraw_shortlisted = refl
