-- ===== src/Contacts/Outcome.antt =====
-- How a contact ends, on every branch.
use mathlib.Core.Option as OptionM
use seniors_empregabilidade.Prelude.{
  ==_refl, All, Bool, Bool-cases, List, Option, Option-cases, Str, [], ap, arith, false,
  first_where, inl, inr, is_some, mem, none, refl, some, sym, true, update_where_miss, ℕ, ◌&&◌,
  ◌==◌, ◌∙◌, ◌∷◌, ◌≡◌, ◌≢◌,
}
use seniors_empregabilidade.Database.Enums.{EmailDeliveryStatus, is_active_account}
use seniors_empregabilidade.Database.Errors.{Constraint, ContactError, Error, JobError}
use seniors_empregabilidade.Database.Session.{Result, Server, err, ok, rolled_back}
use seniors_empregabilidade.Database.Tables.{AppUser, Db, Job, Notification, NotificationDetails}
use seniors_empregabilidade.Applications.Submit.{required_skill_ids}
use seniors_empregabilidade.Companies.Review.{company_by_id, user_by_id}
use seniors_empregabilidade.Companies.Review.Spec.{exists_first}
use seniors_empregabilidade.Contacts.{
  SentContact, available_company, check_and_send, contact_message, contact_professional,
  insert_contact, is_storable, is_unavailable, job_title, listed_candidate_ids, new_contact,
  send_contact, with_details,
}
use seniors_empregabilidade.Contacts.Listed.{IsReached, is_reachable, list_job_applicants-IsReached}
use seniors_empregabilidade.Jobs.Applicants.{JobApplicantsSummary}
use seniors_empregabilidade.Jobs.Applicants.Entries.{AreKnownSkills}
use seniors_empregabilidade.Jobs.Applicants.Listing.{list_job_applicants}
use seniors_empregabilidade.Jobs.ChangeStatus.{own_job}
use seniors_empregabilidade.Notifications.Email.{sends_email}
use seniors_empregabilidade.Notifications.Notify.{
  new_delivery, new_notification, notify_user, notify_user_email, user_exists,
}
use seniors_empregabilidade.Notifications.Types.{NotificationType}

module _ (server : Server) (company_id sent_by_user_id job_id candidate_id : ℕ) (message : Str)
    (db : Db) where
  abbrev pub sender : Option Str
  sender = available_company (user_by_id company_id db) (company_by_id company_id db)

  abbrev pub sender_known : Bool
  sender_known = user_exists sent_by_user_id db

  -- Why a contact is refused.
  pub data ContactReason : Error → Type 0 where
    no_company : sender ≡ none → ContactReason (Error.contact ContactError.company_unavailable)
    not_own : own_job job_id company_id db ≡ none → ContactReason (Error.job JobError.job_not_found)
    not_listed :
        is_reachable job_id company_id db candidate_id ≡ false
        → ContactReason (Error.contact ContactError.professional_not_found)
    unavailable :
        is_unavailable (user_by_id candidate_id db) ≡ true
        → ContactReason (Error.contact ContactError.professional_unavailable)
    bad_message :
        is_storable message ≡ false
        → ContactReason (Error.integrity Constraint.ck_contact_request_message_length)
    unknown_sender :
        sender_known ≡ false
        → ContactReason (Error.integrity Constraint.fk_contact_request_sent_by_user_id_app_user)

  -- The company may contact the professional.
  pub record MayContact (name title : Str) (job : Job) (professional : AppUser) : Type 0 where
    pub sender_free : sender ≡ some name
    pub own : own_job job_id company_id db ≡ some job
    pub titled : job_title job_id db ≡ some title
    pub listed : is_reachable job_id company_id db candidate_id ≡ true
    pub account : user_by_id candidate_id db ≡ some professional
    pub active : is_active_account professional.account_status ≡ true

  abbrev pub told : (name title : Str) → Notification
  told name title =
      new_notification server (server.uuid 0) candidate_id NotificationType.contact_received
        (contact_message name title message) none

  abbrev pub answer : SentContact
  answer = record {
    id = server.uuid 2;
    job_id = job_id;
    candidate_id = candidate_id;
    created_at = server.now;
    email_status = EmailDeliveryStatus.pending;
  }

  -- The tables after a contact: the notification, its queued e-mail and the record of the contact.
  abbrev pub after_contact : (name title : Str) → Db
  after_contact name title = record db {
    notifications =
        with_details (NotificationDetails.contact_received (server.uuid 2) job_id) (told name title)
        ∷ db.notifications;
    deliveries = new_delivery server (server.uuid 1) (server.uuid 0) ∷ db.deliveries;
    contacts =
        new_contact server (server.uuid 2) company_id sent_by_user_id candidate_id job_id message
          (server.uuid 0)
        ∷ db.contacts;
  }

  pub data ContactOutcome (r : Result SentContact × Db) : Type 0 where
    sent :
        (name title : Str) (job : Job) (professional : AppUser)
        → MayContact name title job professional
        → is_storable message ≡ true
        → sender_known ≡ true
        → r ≡ (ok answer, after_contact name title)
        → ContactOutcome r
    refused : (e : Error) → ContactReason e → r ≡ (err e, db) → ContactOutcome r

  abbrev contact : Result SentContact × Db
  contact = contact_professional server company_id sent_by_user_id job_id candidate_id message db

  no_company_lem :
      sender ≡ none → contact ≡ (err (Error.contact ContactError.company_unavailable), db)
  unfolding contact_professional check_and_send
  no_company_lem h =
      ap (rolled_back db) {y = (err (Error.contact ContactError.company_unavailable), db)} (rw h)

  module _ (name : Str) (free : sender ≡ some name) where
    not_own_lem :
        list_job_applicants job_id company_id db ≡ (err (Error.job JobError.job_not_found), db)
        → contact ≡ (err (Error.job JobError.job_not_found), db)
    unfolding contact_professional check_and_send
    not_own_lem h =
        ap (rolled_back db) {y = (err (Error.job JobError.job_not_found), db)} (rw (free, h))

    module _ (summary : JobApplicantsSummary)
        (listing : list_job_applicants job_id company_id db ≡ (ok summary, db)) where
      not_listed_lem :
          mem candidate_id (listed_candidate_ids summary) ≡ false
          → contact ≡ (err (Error.contact ContactError.professional_not_found), db)
      unfolding contact_professional check_and_send
      not_listed_lem h =
          ap (rolled_back db) {y = (err (Error.contact ContactError.professional_not_found), db)}
            (rw (free, listing, h))

      module _ (listed : mem candidate_id (listed_candidate_ids summary) ≡ true) where
        unavailable_lem :
            is_unavailable (user_by_id candidate_id db) ≡ true
            → contact ≡ (err (Error.contact ContactError.professional_unavailable), db)
        unfolding contact_professional check_and_send
        unavailable_lem h =
            ap (rolled_back db)
              {y = (err (Error.contact ContactError.professional_unavailable), db)}
              (rw (free, listing, listed, h))

        sending :
            (r : Result SentContact × Db)
            → is_unavailable (user_by_id candidate_id db) ≡ false
            → send_contact server company_id sent_by_user_id job_id candidate_id message name db ≡ r
            → contact ≡ rolled_back db r
        unfolding contact_professional check_and_send
        sending r h e = ap (rolled_back db) (rw (free, listing, listed, h, e))

  -- The professional's notification has been added, with its queued e-mail.
  abbrev notified_db : (name title : Str) → Db
  notified_db name title = record db {
    notifications = told name title ∷ db.notifications;
    deliveries = new_delivery server (server.uuid 1) (server.uuid 0) ∷ db.deliveries;
  }

  module _ (name title : Str) (titled : job_title job_id db ≡ some title)
      (known : user_exists candidate_id db ≡ true) where
    notifies :
        notify_user server 0 candidate_id NotificationType.contact_received
          (contact_message name title message)
          none
          db
        ≡ (ok (told name title), notified_db name title)
    unfolding sends_email new_notification
    notifies =
        notify_user_email server 0 candidate_id NotificationType.contact_received
          (contact_message name title message) none db known refl

    send_bad :
        is_storable message ≡ false
        → send_contact server company_id sent_by_user_id job_id candidate_id message name db ≡ (
          err (Error.integrity Constraint.ck_contact_request_message_length),
          notified_db name title,
        )
    unfolding send_contact insert_contact
    send_bad h = rw (titled, notifies, h)

    send_unknown :
        is_storable message ≡ true
        → sender_known ≡ false
        → send_contact server company_id sent_by_user_id job_id candidate_id message name db ≡ (
          err (Error.integrity Constraint.fk_contact_request_sent_by_user_id_app_user),
          notified_db name title,
        )
    unfolding send_contact insert_contact
    send_unknown h k = rw (titled, notifies, h, k)

    send_ok :
        All (λ (n : Notification). n.id ≢ server.uuid 0) db.notifications
        → is_storable message ≡ true
        → sender_known ≡ true
        → send_contact server company_id sent_by_user_id job_id candidate_id message name db
          ≡ (ok answer, after_contact name title)
    unfolding send_contact insert_contact new_notification
    send_ok fresh h k = rw (
      titled,
      notifies,
      h,
      k,
      ==_refl (server.uuid 0),
      update_where_miss (λ (n : Notification). n.id) (server.uuid 0)
          (with_details (NotificationDetails.contact_received (server.uuid 2) job_id))
          db.notifications fresh,
    )

  title_found :
      (jobs : List Job) (job : Job)
      → first_where (λ j. j.id == job_id && j.company_id == company_id) jobs ≡ some job
      → (t : Str) × (OptionM.map
            (λ (j : Job). j.title)
            (first_where (λ (j : Job). j.id == job_id) jobs)
          ≡ some t)
  title_found [] job h = cc
  title_found (j ∷ jobs) job h = elim (Bool-cases (j.id == job_id)) [
    | inl hit ↦ (j.title, rw hit)
    | inr miss ↦ let (t, e) = title_found jobs job (ground (arith, h, miss)) in (t, rw (miss, e))
  ]

  module _ (fresh : All (λ (n : Notification). n.id ≢ server.uuid 0) db.notifications) where
    module _ (name title : Str) (job : Job) (professional : AppUser)
        (may : MayContact name title job professional) (summary : JobApplicantsSummary)
        (listing : list_job_applicants job_id company_id db ≡ (ok summary, db))
        (listed : mem candidate_id (listed_candidate_ids summary) ≡ true) where
      known : user_exists candidate_id db ≡ true
      known = exists_first candidate_id db.users ∙ ap is_some may.account

      free : is_unavailable (user_by_id candidate_id db) ≡ false
      free = rw (may.account, may.active)

      sends :
          (r : Result SentContact × Db)
          → send_contact server company_id sent_by_user_id job_id candidate_id message name db ≡ r
          → contact ≡ rolled_back db r
      sends r = sending name may.sender_free summary listing listed r free

      may-Outcome : ContactOutcome contact
      may-Outcome = elim (Bool-cases (is_storable message)) [
        | inr bad ↦
            ContactOutcome.refused _ (ContactReason.bad_message bad)
              (sends _ (send_bad name title may.titled known bad))
        | inl good ↦ elim (Bool-cases sender_known) [
          | inr unknown ↦
              ContactOutcome.refused _ (ContactReason.unknown_sender unknown)
                (sends _ (send_unknown name title may.titled known good unknown))
          | inl there ↦
              ContactOutcome.sent name title job professional may good there
                (sends _ (send_ok name title may.titled known fresh good there))
        ]
      ]

    professional-Outcome :
        (name : Str)
        → sender ≡ some name
        → (job : Job) → own_job job_id company_id db ≡ some job
        → (summary : JobApplicantsSummary)
        → list_job_applicants job_id company_id db ≡ (ok summary, db)
        → mem candidate_id (listed_candidate_ids summary) ≡ true
        → is_reachable job_id company_id db candidate_id ≡ true
        → ContactOutcome contact
    professional-Outcome name sender_free job own summary listing listed reachable =
        elim (Option-cases (user_by_id candidate_id db)) [
          | inl n ↦
              ContactOutcome.refused _ (ContactReason.unavailable (rw n))
                (unavailable_lem name sender_free summary listing listed (rw n))
          | inr (u, found) ↦ elim (Bool-cases (is_active_account u.account_status)) [
            | inr blocked ↦
                ContactOutcome.refused _ (ContactReason.unavailable (rw (found, blocked)))
                  (unavailable_lem name sender_free summary listing listed (rw (found, blocked)))
            | inl active ↦
                let (title, titled) = title_found db.jobs job own in
                may-Outcome name title job u
                  (record {
                    sender_free = sender_free;
                    own = own;
                    titled = titled;
                    listed = reachable;
                    account = found;
                    active = active;
                  })
                  summary listing listed
          ]
        ]

    sender-Outcome :
        AreKnownSkills db (required_skill_ids job_id db)
        → (name : Str) → sender ≡ some name
        → ContactOutcome contact
    sender-Outcome skills name sender_free =
        elim (list_job_applicants-IsReached job_id company_id db skills) [
          | IsReached.unreached n e ↦
              ContactOutcome.refused _ (ContactReason.not_own n) (not_own_lem name sender_free e)
          | IsReached.reached job summary own mem_iff e ↦
              elim (Bool-cases (mem candidate_id (listed_candidate_ids summary))) [
                | inr absent ↦
                    ContactOutcome.refused _
                      (ContactReason.not_listed (sym (mem_iff candidate_id) ∙ absent))
                      (not_listed_lem name sender_free summary e absent)
                | inl there ↦
                    professional-Outcome name sender_free job own summary e there
                      (sym (mem_iff candidate_id) ∙ there)
              ]
        ]

-- Where every required skill is in the catalog and the notification's identifier is fresh, a
-- contact is sent or refused. It is sent by an approved company with an active account, for its own
-- job, to a professional who has applied to that job or is an automatic match for it and whose
-- account is active, and leaves exactly three new rows: the notification with the company's
-- message, its queued e-mail and the record of the contact. Every refusal has its reason and leaves
-- all tables as they were.
pub contact_professional-ContactOutcome :
    (server : Server) (company_id sent_by_user_id job_id candidate_id : ℕ) (message : Str) (db : Db)
    → AreKnownSkills db (required_skill_ids job_id db)
    → All (λ (n : Notification). n.id ≢ server.uuid 0) db.notifications
    → ContactOutcome server company_id sent_by_user_id job_id candidate_id message db
        (contact_professional server company_id sent_by_user_id job_id candidate_id message db)
contact_professional-ContactOutcome server company_id sent_by_user_id job_id candidate_id message db
      skills fresh =
    elim (Option-cases (sender server company_id sent_by_user_id job_id candidate_id message db)) [
      | inl n ↦
          ContactOutcome.refused _ (ContactReason.no_company n)
            (no_company_lem server company_id sent_by_user_id job_id candidate_id message db n)
      | inr (name, free) ↦
          sender-Outcome server company_id sent_by_user_id job_id candidate_id message db fresh
            skills name free
    ]
