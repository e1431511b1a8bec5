-- ===== src/Contacts.antt =====
-- app/contacts: a company's message to a professional of one of its jobs' lists
-- (domain/contact_message.py and services/contact_professional.py).
pub mod Listed
pub mod Outcome
use mathlib.Core.Option as OptionM
use seniors_empregabilidade.Prelude.{
  Bool, List, Option, Str, [], codes, first_where, if◌then◌else◌, is_empty, leb, length, map, mem,
  none, not, reversed_onto, some, true, update_where, ℕ, ◌&&◌, ◌++◌, ◌==◌, ◌∷◌,
}
use seniors_empregabilidade.Database.Enums.{
  EmailDeliveryStatus, is_active_account, is_approved_company,
}
use seniors_empregabilidade.Database.Errors.{Constraint, ContactError, Error}
use seniors_empregabilidade.Database.Session.{
  Action, Server, gets, modify, or_raise, pure, raise_if, transaction, ◌>>=◌, ◌>>◌,
}
use seniors_empregabilidade.Database.Tables.{
  AppUser, Company, ContactRequest, Db, Job, Notification, NotificationDetails,
}
use seniors_empregabilidade.Companies.Review.{company_by_id, user_by_id}
use seniors_empregabilidade.Jobs.Applicants.{JobApplicant, JobApplicantsSummary}
use seniors_empregabilidade.Jobs.Applicants.Listing.{list_job_applicants}
use seniors_empregabilidade.Notifications.Notify.{notification, notify_user, user_exists}
use seniors_empregabilidade.Notifications.Types.{NotificationType}

pub record SentContact : Type 0 where
  pub id : ℕ
  pub job_id : ℕ
  pub candidate_id : ℕ
  pub created_at : ℕ
  pub email_status : EmailDeliveryStatus

-- `contact_message`
unfoldable pub contact_message : (company_name job_title message : Str) → Str
contact_message company_name job_title message =
    company_name
    ++ (codes " entrou em contato sobre a vaga \""
        ++ (job_title ++ (codes "\":" ++ (10 ∷ 10 ∷ message))))

-- `company.trade_name or company.legal_name`
abbrev pub public_name : Company → Str
public_name c = elim c.trade_name [
  | none ↦ c.legal_name
  | some name ↦ if is_empty name then c.legal_name else name
]

-- The account can take part: it has the account and the review status that the query asks for.
abbrev pub is_available_company : AppUser → Company → Bool
is_available_company u c = is_active_account u.account_status && is_approved_company c.status

-- `_lock_available_company`: no value stands for `CompanyUnavailableError`.
abbrev pub available_company : Option AppUser → Option Company → Option Str
available_company (some u) (some c) =
    if is_available_company u c then some (public_name c) else none
available_company u c = none

-- `account_status != AccountStatus.ACTIVE`
abbrev pub is_unavailable : Option AppUser → Bool
is_unavailable none = true
is_unavailable (some u) = not (is_active_account u.account_status)

abbrev pub listed_candidate_ids : JobApplicantsSummary → List ℕ
listed_candidate_ids summary = map (λ (a : JobApplicant). a.profile.candidate_id) summary.applicants

abbrev pub job_title : (job_id : ℕ) → Db → Option Str
job_title job_id db =
    OptionM.map (λ (j : Job). j.title) (first_where (λ (j : Job). j.id == job_id) db.jobs)

abbrev pub with_details : NotificationDetails → Notification → Notification
with_details details n = record n { details = some details }

abbrev pub set_details : (notification_id : ℕ) → NotificationDetails → Db → Db
set_details notification_id details db = record db {
  notifications =
      update_where (λ n. n.id == notification_id) (with_details details) db.notifications;
}

abbrev pub new_contact :
    Server
    → (id company_id sent_by_user_id candidate_id job_id : ℕ) (message : Str)
    → (notification_id : ℕ) → ContactRequest
new_contact server id company_id sent_by_user_id candidate_id job_id message notification_id =
    record {
      id = id;
      company_id = company_id;
      sent_by_user_id = some sent_by_user_id;
      candidate_id = candidate_id;
      job_id = job_id;
      message = message;
      notification_id = notification_id;
      created_at = server.now;
    }

abbrev pub drop_spaces : Str → Str
drop_spaces [] = []
drop_spaces (c ∷ s) = if c == 32 then drop_spaces s else c ∷ s

-- PostgreSQL's `btrim`, which trims spaces.
abbrev pub btrim : Str → Str
btrim text = reversed_onto (drop_spaces (reversed_onto (drop_spaces text) [])) []

-- `char_length(btrim(message)) BETWEEN 1 AND 2000`
abbrev pub is_storable : (message : Str) → Bool
is_storable message = leb 1 (length (btrim message)) && leb (length (btrim message)) 2000

-- `session.add(contact)` and the flush. The rows of the company, the job and the professional have
-- been read before.
unfoldable pub insert_contact : (sent_by_user_id : ℕ) → ContactRequest → Action (Unit {0})
insert_contact sent_by_user_id contact = do
  raise_if (not (is_storable contact.message))
      (Error.integrity Constraint.ck_contact_request_message_length)
  known ← gets (user_exists sent_by_user_id)
  raise_if (not known) (Error.integrity Constraint.fk_contact_request_sent_by_user_id_app_user)
  modify (λ db. record db { contacts = contact ∷ db.contacts })

module _ (server : Server) (company_id sent_by_user_id job_id candidate_id : ℕ)
    (message : Str) where
  -- What happens once the professional may be contacted.
  unfoldable pub send_contact : (company_name : Str) → Action SentContact
  send_contact company_name = do
    found ← gets (job_title job_id)
    title ← or_raise found Error.unexpected
    notification ←
        notify_user server 0 candidate_id NotificationType.contact_received
          (contact_message company_name title message) none
    let contact =
        new_contact server (server.uuid 2) company_id sent_by_user_id candidate_id job_id message
          notification.id
    insert_contact sent_by_user_id contact
    modify (set_details notification.id (NotificationDetails.contact_received contact.id job_id))
    pure (record {
      id = contact.id;
      job_id = job_id;
      candidate_id = candidate_id;
      created_at = contact.created_at;
      email_status = EmailDeliveryStatus.pending;
    })

  unfoldable pub check_and_send : Action SentContact
  check_and_send = do
    company ←
        gets (λ db. available_company (user_by_id company_id db) (company_by_id company_id db))
    company_name ← or_raise company (Error.contact ContactError.company_unavailable)
    listed ← list_job_applicants job_id company_id
    raise_if (not (mem candidate_id (listed_candidate_ids listed)))
        (Error.contact ContactError.professional_not_found)
    professional ← gets (user_by_id candidate_id)
    raise_if (is_unavailable professional) (Error.contact ContactError.professional_unavailable)
    send_contact company_name

  unfoldable pub contact_professional : Action SentContact
  contact_professional = transaction check_and_send
