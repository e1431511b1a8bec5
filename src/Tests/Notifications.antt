-- ===== src/Tests/Notifications.antt =====
-- Runs of the notification center and of the dispatcher.
use seniors_empregabilidade.Prelude.{All, arith, codes, false, is_some, refl, suc, zero, ◌+◌, ◌≡◌}
use seniors_empregabilidade.Notifications.Dispatch.{
  EmailSender, SendOutcome, dispatch_pending_emails,
}
use seniors_empregabilidade.Notifications.Dispatch.Delivery.{IsConsistent}
use seniors_empregabilidade.Notifications.Dispatch.Drain.{dispatch_pending_emails-IsConsistent}
use seniors_empregabilidade.Notifications.Email.{
  carries_message, notification_email, notification_email_privacy, sends_email,
}
use seniors_empregabilidade.Notifications.Reading.{
  Marked, mark_notification_as_read, mark_notification_as_read_lem, of_others,
}
use seniors_empregabilidade.Notifications.Types.{NotificationType}
use seniors_empregabilidade.Tests.Samples.{sample}

-- A provider that accepts the first call and refuses all others.
abbrev sender : EmailSender
sender zero r s b = SendOutcome.accepted
sender (suc n) r s b = SendOutcome.refused (codes "throttled")

dispatch_pending_emails-IsConsistent_example :
    let db' = (dispatch_pending_emails sender (codes "https://app") 3 (λ n. 5 + n) 10 sample).1 in
    All (IsConsistent 3) db'.deliveries × (db' ≡ record sample { deliveries = db'.deliveries })
dispatch_pending_emails-IsConsistent_example =
    dispatch_pending_emails-IsConsistent sender (codes "https://app") 3 (λ n. 5 + n) 10 sample
      (omega arith) ((omega arith, refl), ((omega arith, refl), tt))

mark_notification_as_read_lem_example :
    let r = mark_notification_as_read 51 2 sample in
    Marked 51 2 sample r × (of_others 2 r.1.notifications ≡ of_others 2 sample.notifications)
mark_notification_as_read_lem_example = mark_notification_as_read_lem 51 2 sample

does_not_carry : carries_message NotificationType.application_received ≡ false
unfolding carries_message
does_not_carry = refl

notification_email_privacy_example :
    (notification_email NotificationType.application_received (codes "u") (codes "a")
      ≡ notification_email NotificationType.application_received (codes "u") (codes "b"))
    × (is_some (notification_email NotificationType.application_received (codes "u") (codes "a"))
        ≡ sends_email NotificationType.application_received)
notification_email_privacy_example =
    notification_email_privacy NotificationType.application_received (codes "u") (codes "a")
      (codes "b") does_not_carry
