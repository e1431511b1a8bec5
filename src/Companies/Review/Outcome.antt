-- ===== src/Companies/Review/Outcome.antt =====
-- Every review ends as its specification says.
use seniors_empregabilidade.Prelude.{
  Bool, Bool-cases, List, Option, Option-cases, Str, ap, false, inl, inr, none, refl, some, true, ℕ,
  ◌≡◌,
}
use seniors_empregabilidade.Database.Enums.{is_pending_company}
use seniors_empregabilidade.Database.Errors.{CompanyError, Error}
use seniors_empregabilidade.Database.Session.{Result, Server, err, rolled_back}
use seniors_empregabilidade.Database.Tables.{Company, Db}
use seniors_empregabilidade.Companies.Policies.{Decision, is_blocked_cnae, is_invalid_decision}
use seniors_empregabilidade.Companies.Review.{
  CompanyApprovalRequest, CompanyResponse, company_by_id, decide, find_and_decide, lacks_activity,
  or_empty, review_company, user_by_id,
}
use seniors_empregabilidade.Companies.Review.Spec.{
  HasActivity, Reason, ReviewOutcome, decide_approved, decide_blocked, decide_no_account,
  decide_no_activity, decide_nobody, decide_rejected,
}

module _ (is_digit : ℕ → Bool) (blocked_prefixes : List Str) (server : Server) (company_id : ℕ)
    (reason : Option Str) (db : Db) where
  abbrev Ends : Decision → Result CompanyResponse × Db → Type 0
  Ends d =
      ReviewOutcome is_digit blocked_prefixes server company_id
        (record { status = d; reason = reason }) db

  abbrev review : Decision → Result CompanyResponse × Db
  review d =
      review_company is_digit blocked_prefixes server company_id
        (record { status = d; reason = reason }) db

  module _ (d : Decision) (valid : is_invalid_decision d reason ≡ false) where
    not_found :
        company_by_id company_id db ≡ none
        → review d ≡ (err (Error.company CompanyError.company_not_found), db)
    unfolding review_company find_and_decide
    not_found n =
        ap (rolled_back db) {y = (err (Error.company CompanyError.company_not_found), db)}
          (rw (valid, n))

    module _ (company : Company) (found : company_by_id company_id db ≡ some company) where
      review_found :
          (r : Result CompanyResponse × Db)
          → decide is_digit blocked_prefixes server
              (record { status = d; reason = reason })
              company
              db
            ≡ r
          → review d ≡ rolled_back db r
      unfolding review_company find_and_decide
      review_found r e = ap (rolled_back db) (rw (valid, found, e))

      review_not_pending :
          is_pending_company company.status ≡ false
          → review d ≡ (err (Error.company CompanyError.company_not_pending), db)
      unfolding decide
      review_not_pending h =
          review_found (err (Error.company CompanyError.company_not_pending), db) (rw h)

  module _ (company : Company) (found : company_by_id company_id db ≡ some company)
      (pending : is_pending_company company.status ≡ true) where
    rejection :
        is_invalid_decision Decision.to_rejected reason ≡ false
        → Ends Decision.to_rejected (review Decision.to_rejected)
    rejection valid = elim (Option-cases (user_by_id company.id db)) [
      | inl n ↦ ReviewOutcome.refused _ (Reason.nobody_to_notify company found refl n) (
          review_found Decision.to_rejected valid company found _
            (decide_nobody is_digit blocked_prefixes server reason company db pending n))
      | inr (user, u) ↦
          ReviewOutcome.decided company user valid found pending HasActivity.not_needed u (
            review_found Decision.to_rejected valid company found _
              (decide_rejected is_digit blocked_prefixes server reason company db pending user u))
    ]

    approval :
        is_invalid_decision Decision.to_approved reason ≡ false
        → Ends Decision.to_approved (review Decision.to_approved)
    approval valid = elim (Bool-cases (lacks_activity company.primary_cnae)) [
      | inl lacks ↦ ReviewOutcome.refused _ (Reason.no_activity company found refl lacks) (
          review_found Decision.to_approved valid company found _
            (decide_no_activity is_digit blocked_prefixes server reason company db pending lacks))
      | inr has ↦
          elim (Bool-cases
            (is_blocked_cnae is_digit (or_empty company.primary_cnae) blocked_prefixes)) [
              | inl b ↦ ReviewOutcome.refused _ (Reason.blocked company found refl b) (
                  review_found Decision.to_approved valid company found _ (
                    decide_blocked is_digit blocked_prefixes server reason company db pending has
                      b))
              | inr free ↦ elim (Option-cases (user_by_id company.id db)) [
                | inl n ↦ ReviewOutcome.refused _ (Reason.no_account company found refl n) (
                    review_found Decision.to_approved valid company found _ (
                      decide_no_account is_digit blocked_prefixes server reason company db pending
                        has free n))
                | inr (user, u) ↦
                    ReviewOutcome.decided company user valid found pending
                      (HasActivity.allowed has free) u
                      (review_found Decision.to_approved valid company found _ (
                        decide_approved is_digit blocked_prefixes server reason company db pending
                          user has free u))
              ]
            ]
    ]

    either : (d : Decision) → is_invalid_decision d reason ≡ false → Ends d (review d)
    either Decision.to_approved valid = approval valid
    either Decision.to_rejected valid = rejection valid

  invalid :
      (d : Decision)
      → is_invalid_decision d reason ≡ true
      → review d ≡ (err (Error.company CompanyError.invalid_decision), db)
  unfolding review_company find_and_decide
  invalid d h =
      ap (rolled_back db) {y = (err (Error.company CompanyError.invalid_decision), db)} (rw h)

  decision-ReviewOutcome : (d : Decision) → Ends d (review d)
  decision-ReviewOutcome d = elim (Bool-cases (is_invalid_decision d reason)) [
    | inl bad ↦ ReviewOutcome.refused _ (Reason.bad_reason bad) (invalid d bad)
    | inr valid ↦ elim (Option-cases (company_by_id company_id db)) [
      | inl n ↦ ReviewOutcome.refused _ (Reason.no_company n) (not_found d valid n)
      | inr (company, found) ↦ elim (Bool-cases (is_pending_company company.status)) [
        | inr over ↦
            ReviewOutcome.refused _ (Reason.not_pending company found over)
              (review_not_pending d valid company found over)
        | inl pending ↦ either company found pending d valid
      ]
    ]
  ]

-- A review is carried out or refused. It is carried out for a pending company with an account, when
-- a rejection states its reason and an approval states none and the company's activity is known and
-- not blocked. It then changes the status of exactly that company, and a rejection adds exactly one
-- notification with the reason, which is not queued as an e-mail. Every refusal has its reason and
-- leaves all tables as they were.
pub review_company-ReviewOutcome :
    (is_digit : ℕ → Bool) (blocked_prefixes : List Str) (server : Server) (company_id : ℕ)
    (request : CompanyApprovalRequest) (db : Db)
    → ReviewOutcome is_digit blocked_prefixes server company_id request db
        (review_company is_digit blocked_prefixes server company_id request db)
review_company-ReviewOutcome is_digit blocked_prefixes server company_id request db =
    decision-ReviewOutcome is_digit blocked_prefixes server company_id request.reason db
      request.status
