-- ===== src/Notifications/Types.antt =====
-- app/notifications/domain/notification_type.py
use seniors_empregabilidade.Prelude.{Option, none, some, Str, codes, str_eq, if◌then◌else◌}

pub data NotificationType : Type 0 where
  application_received application_status_changed company_registration_rejected contact_received :
      NotificationType

-- `type.value`
unfoldable pub value : NotificationType → Str
value NotificationType.application_received = codes "application_received"
value NotificationType.application_status_changed = codes "application_status_changed"
value NotificationType.company_registration_rejected = codes "company_registration_rejected"
value NotificationType.contact_received = codes "contact_received"

-- `NotificationType(text)` where the text is a member's value.
unfoldable pub member : Str → Option NotificationType
unfolding value
member text =
    if str_eq text (value NotificationType.application_received)
    then some NotificationType.application_received
    else if str_eq text (value NotificationType.application_status_changed)
    then some NotificationType.application_status_changed
    else if str_eq text (value NotificationType.company_registration_rejected)
    then some NotificationType.company_registration_rejected
    else if str_eq text (value NotificationType.contact_received)
    then some NotificationType.contact_received
    else none
