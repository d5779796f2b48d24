-- ===== src/Tickets/Announce/Silence.antt =====
-- The notifying helpers of backend/src/ticketing/tickets/tickets.service.ts only log.
use proman_edge_ace.Prelude.{ℕ, String, Bool, not, Option, none, some, ◌||◌, if◌then◌else◌, ◌==◌}
use proman_edge_ace.Prelude.Text.{is_blank}
use proman_edge_ace.Domain.Logs.{NotifChannel, notif_channel_eq}
use proman_edge_ace.Schema.{User}
use proman_edge_ace.Notifications.{Vars, Rendered}
use proman_edge_ace.Notifications.Failsafe.{
  Quiet, Quiet-bind, Quiet-run_if, Quiet-with_some, send-Quiet, render-Quiet,
  fire_notification-Quiet,
}
use proman_edge_ace.Tickets.Announce.{
  notify_if_known, push_to, email_to, email_and_push, send_named,
}

pub notify_if_known-Quiet :
    (trigger : String) (channel : NotifChannel) (contact : String) (vars : Vars) (id : ℕ)
    → Quiet (notify_if_known trigger channel contact vars id)
notify_if_known-Quiet trigger channel contact vars id =
    Quiet-run_if (not (is_blank contact))
      (fire_notification-Quiet trigger channel contact vars (some id) none)

pub push_to-Quiet :
    (trigger : String) (vars : Vars) (id : Option ℕ) (r : ℕ × User)
    → Quiet (push_to trigger vars id r)
push_to-Quiet trigger vars id (user_id, u) =
    fire_notification-Quiet trigger NotifChannel.push u.email vars id (some user_id)

pub email_to-Quiet :
    (trigger : String) (vars : Vars) (id : Option ℕ) (r : ℕ × User)
    → Quiet (email_to trigger vars id r)
email_to-Quiet trigger vars id (user_id, u) =
    fire_notification-Quiet trigger NotifChannel.email u.email vars id none

pub email_and_push-Quiet :
    (trigger : String) (vars : Vars) (id : Option ℕ) (r : ℕ × User)
    → Quiet (email_and_push trigger vars id r)
email_and_push-Quiet trigger vars id r =
    Quiet-bind {m = email_to trigger vars id r} {f = λ _. push_to trigger vars id r}
      (email_to-Quiet trigger vars id r) (λ _. push_to-Quiet trigger vars id r)

pub send_named-Quiet :
    (trigger name : String) (channel : NotifChannel) (wanted : Bool) (recipient : String)
    (vars : Vars) (id : ℕ) (user_id : Option ℕ)
    → Quiet (send_named trigger name channel wanted recipient vars id user_id)
send_named-Quiet trigger name channel wanted recipient vars id user_id =
    Quiet-bind {A = Option Rendered} (render-Quiet trigger channel vars) λ template.
      Quiet-with_some template λ (t : Rendered). Quiet-run_if wanted (
        send-Quiet (record {
          channel = channel;
          recipient = recipient;
          template_name = name;
          subject =
              if channel == NotifChannel.email || channel == NotifChannel.push
              then t.subject
              else none;
          body = t.body;
          ticket_id = some id;
          user_id = user_id;
        }))
