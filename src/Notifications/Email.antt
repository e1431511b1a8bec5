-- ===== src/Notifications/Email.antt =====
-- app/notifications/domain/notification_email.py
use seniors_empregabilidade.Prelude.{
  Bool, Option, Str, codes, false, if◌then◌else◌, is_some, none, refl, some, true, ◌++◌, ◌≡◌,
}
use seniors_empregabilidade.Notifications.Types.{NotificationType}

pub record NotificationEmail : Type 0 where
  pub subject : Str
  pub body : Str

-- `_EMAIL_COPY`: the subject and the summary of the events that produce an e-mail.
unfoldable pub email_copy : NotificationType → Option (Str × Str)
email_copy NotificationType.application_received = some (
  codes "Nova candidatura em uma vaga sua",
  codes "Uma das suas vagas recebeu uma nova candidatura.",
)
email_copy NotificationType.application_status_changed = some (
  codes "Atualização em uma candidatura sua",
  codes "Uma das suas candidaturas teve o status atualizado.",
)
email_copy NotificationType.contact_received = some (
  codes "Uma empresa entrou em contato com você",
  codes "Uma empresa entrou em contato com você sobre uma vaga.",
)
email_copy NotificationType.company_registration_rejected = none

-- `notification_type in _CARRIES_MESSAGE`
unfoldable pub carries_message : NotificationType → Bool
carries_message NotificationType.contact_received = true
carries_message _ = false

default_footer : Str
default_footer = codes "Este é um e-mail automático. Não é preciso respondê-lo."

contact_footer : Str
contact_footer =
    codes
      "Este é um e-mail automático. Não responda a esta mensagem: as respostas enviadas para este endereço não chegam à empresa.\n"
    ++ codes
        "Se tiver interesse na vaga, entre em contato com a empresa pelo canal que ela informou na mensagem acima, fora deste e-mail.\n"
    ++ codes
        "A Seniors - Empregabilidade nunca pede CPF, documentos, senhas ou dados bancários por e-mail."

-- `_FOOTERS.get(notification_type, _DEFAULT_FOOTER)`
unfoldable pub footer : NotificationType → Str
unfolding default_footer contact_footer
footer NotificationType.contact_received = contact_footer
footer _ = default_footer

unfoldable pub sends_email : NotificationType → Bool
unfolding email_copy
sends_email type = is_some (email_copy type)

unfoldable pub compose : (subject summary app_url : Str) → NotificationType → NotificationEmail
compose subject summary app_url type = record {
  subject = subject;
  body =
      codes "Olá!\n\n"
      ++ (summary
          ++ (codes "\n\nPara ver os detalhes, entre na Seniors - Empregabilidade:\n"
              ++ (app_url ++ (codes "\n\n" ++ footer type))));
}

-- `none` is the `KeyError` for an event with no e-mail.
unfoldable pub notification_email :
    NotificationType → (app_url message : Str) → Option NotificationEmail
notification_email type app_url message = elim (email_copy type) [
  | none ↦ none
  | some (subject, summary) ↦
      some (compose subject (if carries_message type then message else summary) app_url type)
]

-- The e-mail of an event that does not carry its message is the same for every message, and there is
-- one exactly if the event sends e-mails.
pub notification_email_privacy :
    (type : NotificationType) (app_url m m' : Str)
    → carries_message type ≡ false
    → (notification_email type app_url m ≡ notification_email type app_url m')
      × (is_some (notification_email type app_url m) ≡ sends_email type)
unfolding notification_email sends_email carries_message email_copy
notification_email_privacy NotificationType.application_received app_url m m' h = (refl, refl)
notification_email_privacy NotificationType.application_status_changed app_url m m' h = (refl, refl)
notification_email_privacy NotificationType.company_registration_rejected app_url m m' h =
    (refl, refl)
notification_email_privacy NotificationType.contact_received app_url m m' h = cc
