-- ===== src/Notifications.antt =====
-- backend/src/notifications/notification-template.service.ts (`render`) and notification.service.ts
-- (`send`), and the step that joins them: `fireNotification` of tickets.service.ts.
mod Template
pub mod Failsafe
pub use Template.*
use Prim.Native.String.{◌++◌}
use mathlib.Core.Option
use proman_edge_ace.Prelude.{
  ℕ, String, Bool, true, false, ◌&&◌, Option, none, some, List, [], ◌∷◌, if◌then◌else◌, find, ◌==◌,
  string_eq, push, is_some, or_else, ◌||◌, not, keep, get_or, nat_eq,
}
use proman_edge_ace.Prelude.Dict.{Dict}
use proman_edge_ace.Domain.People.{admin, role_eq}
use proman_edge_ace.Domain.Logs.{
  NotifChannel, notif_channel_eq, notif_channel_name, sent, failed, system_job,
}
use proman_edge_ace.Schema.{Db, User, Message, NotificationLog, NotificationTemplate, AuditEntry}
use proman_edge_ace.Prelude.Text.{show}
use proman_edge_ace.Env.{Env, PushAnswer, pushed, refused}
use proman_edge_ace.Workflow.{given}
use proman_edge_ace.Action.{Action, ◌>>=◌, ◌>>◌, pure, ask, gets, modify_db, with_some, run_if}
use proman_edge_ace.Store.{audit}
use Template.{Vars, Rendered, fill}

-- `notificationTemplate.findUnique`, and the substitution into both texts.
unfoldable pub rendered : String → NotifChannel → Vars → List NotificationTemplate → Option Rendered
rendered trigger channel vars templates =
    Option.map
      (λ (t : NotificationTemplate). record {
        subject = Option.map (fill vars) (given t.subject);
        body = fill vars t.body;
      })
      (find (λ (t : NotificationTemplate). t.trigger_code == trigger && t.channel == channel)
        templates)

unfoldable pub render : String → NotifChannel → Vars → Action (Option Rendered)
unfolding rendered
render trigger channel vars = do
  templates ← gets (λ db. db.templates)
  pure (rendered trigger channel vars templates)

-- `user.findFirst({ where: { role: 'ADMIN' } })`: the first in the order of the table.
abbrev pub first_admin : Dict User → Option ℕ
first_admin [] = none
first_admin ((id, u) ∷ us) = if u.role == admin then some id else first_admin us

unfoldable pub send_email : Message → Env → Option String
send_email m env =
    if env.has_smtp
    then env.mail m
    else some "Email not configured — SMTP_HOST/SMTP_USER/SMTP_PASSWORD missing from .env"

unfoldable pub send_whatsapp : Message → Env → Option String
send_whatsapp m env =
    if env.has_whatsapp
    then env.whatsapp m
    else some
        "WhatsApp not configured — WHATSAPP_PHONE_NUMBER_ID/WHATSAPP_ACCESS_TOKEN missing from .env"

-- Firebase's signal for a token that is dead
abbrev pub is_dead : String → Bool
is_dead code =
    code == "messaging/registration-token-not-registered" || code == "messaging/invalid-argument"

unfoldable pub prune : String → Action (Unit {0})
prune token =
    modify_db
      λ db. record db { push_tokens = keep (λ (t : String × ℕ). not (t.0 == token)) db.push_tokens }

-- One token's answer: the new `lastSuccessId` and `lastError`.
unfoldable pub take_answer :
    String → PushAnswer → Option String → Option String → Action (Option String × Option String)
unfolding prune
take_answer token (pushed id) success error = pure (some id, error)
take_answer token (refused message code) success error = do
  run_if (is_dead code) (prune token)
  pure (success, some message)

-- The loop of `sendPush` over a user's tokens.
unfoldable pub push_all :
    Message → List (String × ℕ) → Option String → Option String → Action (Option String)
unfolding take_answer
push_all m [] success error = pure (
    if is_some (given success)
    then none
    else some (get_or error "All registered push tokens failed"))
push_all m (t ∷ ts) success error = do
  answer ← ask (λ env. env.push_to t.0 m)
  next ← take_answer t.0 answer success error
  push_all m ts next.0 next.1

abbrev pub push_found : Message → ℕ → List (String × ℕ) → Action (Option String)
push_found m user_id [] = pure (some ("No registered push tokens for user " ++ show user_id))
push_found m user_id (t ∷ ts) = push_all m (t ∷ ts) none none

abbrev pub push_addressed : Message → Option ℕ → Action (Option String)
push_addressed m none = pure (some "Push requires either userId or deviceToken")
push_addressed m (some user_id) = do
  tokens ← gets (λ db. keep (λ (t : String × ℕ). t.1 == user_id) db.push_tokens)
  push_found m user_id tokens

abbrev pub push_configured : Message → Bool → Action (Option String)
push_configured m true = push_addressed m m.user_id
push_configured m false = pure (
    some
      "Push not configured — FIREBASE_PROJECT_ID/FIREBASE_CLIENT_EMAIL/FIREBASE_PRIVATE_KEY missing from .env")

unfoldable pub send_push : Message → Action (Option String)
send_push m = do configured ← ask (λ env. env.has_firebase); push_configured m configured

-- The `switch` over the channels: the reason of a failure.
unfoldable pub delivery_failure : NotifChannel → Message → Action (Option String)
unfolding send_push
delivery_failure NotifChannel.email m = ask (send_email m)
delivery_failure NotifChannel.push m = send_push m
delivery_failure NotifChannel.whatsapp m = ask (send_whatsapp m)
delivery_failure NotifChannel.sms m =
    pure
      (some "SMS channel not implemented — client decision 2026-07-30, use WhatsApp/Email instead")

unfoldable pub log_entry : Message → Option String → NotificationLog
log_entry m failure = record {
  ticket_id = m.ticket_id;
  channel = m.channel;
  recipient = m.recipient;
  template_name = m.template_name;
  delivery_status = if is_some failure then failed else sent;
}

unfoldable pub failure_entry : Message → String → ℕ → ℕ → AuditEntry
failure_entry m reason ticket_id actor = record {
  entity_type = "TICKET";
  entity_id = ticket_id;
  field_name = "notification_failed";
  old_value = none;
  new_value = some (
      notif_channel_name m.channel
      ++ " notification \""
      ++ m.template_name
      ++ "\" to "
      ++ m.recipient
      ++ " failed: "
      ++ reason);
  changed_by_user_id = actor;
  change_source = system_job;
}

-- `NotificationService.send`; a failure with an empty reason counts as none. `resolveSystemActor` throws where neither actor is there, and that is
-- swallowed.
unfoldable pub send : Message → Action (Unit {0})
unfolding delivery_failure log_entry failure_entry
send m = do
  answer ← delivery_failure m.channel m
  let failure = given answer
  modify_db (λ db. record db { notification_log = push db.notification_log (log_entry m failure) })
  with_some failure λ reason. with_some m.ticket_id λ ticket_id. do
    preferred ← ask (λ env. env.partner_actor_user_id)
    admin_id ← gets (λ db. first_admin db.users)
    with_some (or_else preferred admin_id) λ actor. audit (failure_entry m reason ticket_id actor)

unfoldable pub fire_notification :
    String → NotifChannel → String → Vars → Option ℕ → Option ℕ → Action (Unit {0})
unfolding render send
fire_notification trigger channel recipient vars ticket_id user_id = do
  template ← render trigger channel vars
  with_some template λ (t : Rendered). send (record {
    channel = channel;
    recipient = recipient;
    template_name = trigger;
    subject = t.subject;
    body = t.body;
    ticket_id = ticket_id;
    user_id = user_id;
  })
