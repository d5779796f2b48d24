-- ===== src/Notifications/Failsafe.antt =====
-- "Never throws", the hard rule of notification.service.ts: what a step may do that only notifies.
use proman_edge_ace.Prelude.{
  ◌≡◌, refl, sym, ◌∙◌, String, Bool, true, false, Option, none, some, List, [], ◌∷◌, ◌++◌, ap, ℕ,
  push, or_else, keep, not, ◌&&◌, ◌==◌, string_eq, nat_eq, Bool-cases, inl, inr,
}
use mathlib.Core.Path.{subst}
use proman_edge_ace.Workflow.{given}
use mathlib.Core.List.{append-nil, append_assoc}
use proman_edge_ace.Domain.Logs.{NotifChannel}
use proman_edge_ace.Schema.{Db, AuditEntry, NotificationLog, NotificationTemplate, Message}
use proman_edge_ace.Env.{Env, PushAnswer, pushed, refused}
use proman_edge_ace.Action.{
  Action, ok, ◌>>=◌, pure, ask, gets, modify_db, with_some, run_if, for_each, after,
}
use proman_edge_ace.Store.{append_audit, audit}
use proman_edge_ace.Notifications.{
  Vars, Rendered, render, send, fire_notification, rendered, log_entry, delivery_failure,
  failure_entry, first_admin, send_email, send_whatsapp, send_push, push_addressed, push_found,
  push_configured, take_answer, push_all, prune, is_dead,
}

-- The database with other logs and push tokens.
abbrev pub logged : Db → List AuditEntry → List NotificationLog → List (String × ℕ) → Db
logged db audits notes tokens = record db {
  audit_log = audits;
  notification_log = notes;
  push_tokens = tokens;
}

-- Entries are new at the end of the two logs, and push tokens may be gone: every other table stays, and so
-- do the entries that the logs had already.
pub record Keeps (db db' : Db) : Type 0 where
  pub extra : List AuditEntry
  pub notes : List NotificationLog
  pub is_spared : String × ℕ → Bool
  pub same :
      db'
      ≡ logged db
          (db.audit_log ++ extra)
          (db.notification_log ++ notes)
          (keep is_spared db.push_tokens)

keep-all : {A : Type 0} (xs : List A) → keep (λ _. true) xs ≡ xs
keep-all [] = refl
keep-all (x ∷ xs) = ap (λ ys. x ∷ ys) (keep-all xs)

keep-keep :
    {A : Type 0} (p q : A → Bool) (xs : List A) → keep q (keep p xs) ≡ keep (λ x. p x && q x) xs
keep-keep p q [] = refl
keep-keep p q (x ∷ xs) = elim (Bool-cases (p x)) [
  | inl e ↦ elim (Bool-cases (q x)) [
    | inl f ↦ rw (e, f) (ap (λ ys. x ∷ ys) (keep-keep p q xs))
    | inr f ↦ rw (e, f) (keep-keep p q xs)
  ]
  | inr e ↦ rw (e) (keep-keep p q xs)
]

-- Entries at the end of the logs
Keeps-logs :
    (db : Db) (extra : List AuditEntry) (notes : List NotificationLog)
    → Keeps db (logged db (db.audit_log ++ extra) (db.notification_log ++ notes) db.push_tokens)
Keeps-logs db extra notes = record {
  extra = extra;
  notes = notes;
  is_spared = λ _. true;
  same =
      ap (logged db (db.audit_log ++ extra) (db.notification_log ++ notes))
        (sym (keep-all db.push_tokens));
}

pub Keeps-refl : (db : Db) → Keeps db db
Keeps-refl db =
    subst (Keeps db)
      (ap (λ a. logged db a (db.notification_log ++ []) db.push_tokens) (append-nil db.audit_log)
        ∙ ap (λ n. logged db db.audit_log n db.push_tokens) (append-nil db.notification_log))
      (Keeps-logs db [] [])

pub Keeps-trans : {db db' db'' : Db} → Keeps db db' → Keeps db' db'' → Keeps db db''
Keeps-trans {db} k l = record {
  extra = k.extra ++ l.extra;
  notes = k.notes ++ l.notes;
  is_spared = λ t. k.is_spared t && l.is_spared t;
  same =
      l.same
      ∙ ap
          (λ (d : Db).
            logged d (d.audit_log ++ l.extra) (d.notification_log ++ l.notes)
              (keep l.is_spared d.push_tokens))
          k.same
      ∙ ap
          (λ a.
            logged db a ((db.notification_log ++ k.notes) ++ l.notes)
              (keep l.is_spared (keep k.is_spared db.push_tokens)))
          (append_assoc db.audit_log k.extra l.extra)
      ∙ ap
          (λ n.
            logged db (db.audit_log ++ (k.extra ++ l.extra)) n
              (keep l.is_spared (keep k.is_spared db.push_tokens)))
          (append_assoc db.notification_log k.notes l.notes)
      ∙ ap
          (logged db (db.audit_log ++ (k.extra ++ l.extra))
            (db.notification_log ++ (k.notes ++ l.notes)))
          (keep-keep k.is_spared l.is_spared db.push_tokens);
}

-- The call returns, whatever the environment and the database, and changes no more than that.
pub record Quiet {A : Type 0} (m : Action A) : Type 0 where
  pub run : (env : Env) (db : Db) → (a : A) × (db' : Db) × (m env db ≡ (ok a, db')) × Keeps db db'

module _ {A : Type 0} where
  pub Quiet-pure : (a : A) → Quiet (pure a)
  Quiet-pure a = record { run = λ env db. (a, db, refl, Keeps-refl db) }

  pub Quiet-ask : (f : Env → A) → Quiet (ask f)
  Quiet-ask f = record { run = λ env db. (f env, db, refl, Keeps-refl db) }

  pub Quiet-gets : (f : Db → A) → Quiet (gets f)
  Quiet-gets f = record { run = λ env db. (f db, db, refl, Keeps-refl db) }

  pub Quiet-bind :
      {B : Type 0} {m : Action A} {f : A → Action B}
      → Quiet m
      → ((a : A) → Quiet (f a))
      → Quiet (m >>= f)
  Quiet-bind {f} q r = record {
    run = λ env db.
        let (a, db', e, k) = q.run env db in
        let (b, db'', e', k') = (r a).run env db' in
        (b, db'', ap (after f env) e ∙ e', Keeps-trans k k');
  }

pub Quiet-with_some :
    {A : Type 0} (o : Option A) {m : A → Action (Unit {0})}
    → ((a : A) → Quiet (m a))
    → Quiet (with_some o m)
Quiet-with_some none q = Quiet-pure tt
Quiet-with_some (some a) q = q a

pub Quiet-for_each :
    {A : Type 0} (xs : List A) {m : A → Action (Unit {0})}
    → ((a : A) → Quiet (m a))
    → Quiet (for_each xs m)
unfolding for_each
Quiet-for_each [] q = Quiet-pure tt
Quiet-for_each (x ∷ xs) {m} q =
    Quiet-bind {m = m x} {f = λ _. for_each xs m} (q x) (λ _. Quiet-for_each xs q)

pub Quiet-run_if : (c : Bool) {m : Action (Unit {0})} → Quiet m → Quiet (run_if c m)
Quiet-run_if true q = q
Quiet-run_if false q = Quiet-pure tt

pub Quiet-audit : (entry : AuditEntry) → Quiet (audit entry)
Quiet-audit entry = record {
  run = λ env db. (
    tt,
    append_audit entry db,
    refl,
    subst (Keeps db)
        (ap (λ n. logged db (db.audit_log ++ entry ∷ []) n db.push_tokens)
          (append-nil db.notification_log))
        (Keeps-logs db (entry ∷ []) []),
  );
}

Quiet-note :
    (note : NotificationLog)
    → Quiet (modify_db (λ db. record db { notification_log = push db.notification_log note }))
Quiet-note note = record {
  run = λ env db. (
    tt,
    record db { notification_log = push db.notification_log note },
    refl,
    subst (Keeps db)
        (ap (λ a. logged db a (db.notification_log ++ note ∷ []) db.push_tokens)
          (append-nil db.audit_log))
        (Keeps-logs db [] (note ∷ [])),
  );
}

Quiet-prune : (token : String) → Quiet (prune token)
unfolding prune
Quiet-prune token = record {
  run = λ env db.
      let spared = λ (t : String × ℕ). not (t.0 == token) in
      (
        tt,
        record db { push_tokens = keep spared db.push_tokens },
        refl,
        record {
          extra = [];
          notes = [];
          is_spared = spared;
          same = sym (
              ap (λ a. logged db a (db.notification_log ++ []) (keep spared db.push_tokens))
                (append-nil db.audit_log)
              ∙ ap (λ n. logged db db.audit_log n (keep spared db.push_tokens))
                  (append-nil db.notification_log));
        },
      );
}

take_answer-Quiet :
    (token : String) (answer : PushAnswer) (success error : Option String)
    → Quiet (take_answer token answer success error)
unfolding take_answer
take_answer-Quiet token (pushed id) success error = Quiet-pure _
take_answer-Quiet token (refused message code) success error =
    Quiet-bind (Quiet-run_if (is_dead code) (Quiet-prune token)) λ _. Quiet-pure _

push_all-Quiet :
    (m : Message) (ts : List (String × ℕ)) (success error : Option String)
    → Quiet (push_all m ts success error)
unfolding push_all
push_all-Quiet m [] success error = Quiet-pure _
push_all-Quiet m (t ∷ ts) success error =
    Quiet-bind {A = PushAnswer} (Quiet-ask (λ env. env.push_to t.0 m)) λ answer.
      Quiet-bind {A = Option String × Option String} (take_answer-Quiet t.0 answer success error)
        λ next. push_all-Quiet m ts next.0 next.1

push_found-Quiet :
    (m : Message) (user_id : ℕ) (ts : List (String × ℕ)) → Quiet (push_found m user_id ts)
push_found-Quiet m user_id [] = Quiet-pure _
push_found-Quiet m user_id (t ∷ ts) = push_all-Quiet m (t ∷ ts) none none

push_addressed-Quiet : (m : Message) (o : Option ℕ) → Quiet (push_addressed m o)
push_addressed-Quiet m none = Quiet-pure _
push_addressed-Quiet m (some user_id) =
    Quiet-bind {A = List (String × ℕ)}
      (Quiet-gets (λ db. keep (λ (t : String × ℕ). t.1 == user_id) db.push_tokens))
      (push_found-Quiet m user_id)

push_configured-Quiet : (m : Message) (b : Bool) → Quiet (push_configured m b)
push_configured-Quiet m true = push_addressed-Quiet m m.user_id
push_configured-Quiet m false = Quiet-pure _

send_push-Quiet : (m : Message) → Quiet (send_push m)
unfolding send_push
send_push-Quiet m =
    Quiet-bind {A = Bool} (Quiet-ask (λ env. env.has_firebase)) (push_configured-Quiet m)

delivery_failure-Quiet : (c : NotifChannel) (m : Message) → Quiet (delivery_failure c m)
unfolding delivery_failure
delivery_failure-Quiet NotifChannel.email m = Quiet-ask (send_email m)
delivery_failure-Quiet NotifChannel.push m = send_push-Quiet m
delivery_failure-Quiet NotifChannel.whatsapp m = Quiet-ask (send_whatsapp m)
delivery_failure-Quiet NotifChannel.sms m = Quiet-pure _

pub send-Quiet : (m : Message) → Quiet (send m)
unfolding send
send-Quiet m = Quiet-bind {A = Option String} (delivery_failure-Quiet m.channel m) λ answer.
    Quiet-bind (Quiet-note (log_entry m (given answer))) λ _.
      Quiet-with_some (given answer) λ reason. Quiet-with_some m.ticket_id λ ticket_id.
        Quiet-bind {A = Option ℕ} (Quiet-ask (λ env. env.partner_actor_user_id)) λ preferred.
          Quiet-bind {A = Option ℕ} (Quiet-gets (λ db. first_admin db.users)) λ admin_id.
            Quiet-with_some (or_else preferred admin_id)
              λ actor. Quiet-audit (failure_entry m reason ticket_id actor)

pub render-Quiet :
    (trigger : String) (channel : NotifChannel) (vars : Vars) → Quiet (render trigger channel vars)
unfolding render
render-Quiet trigger channel vars =
    Quiet-bind {A = List NotificationTemplate} (Quiet-gets (λ db. db.templates))
      λ templates. Quiet-pure (rendered trigger channel vars templates)

-- A notification never throws, whether its template exists, the gateway fails or nobody can be named for
-- the failure's entry; and it only adds entries at the end of the notification log and of the audit log, and
-- deletes push tokens.
pub fire_notification-Quiet :
    (trigger : String) (channel : NotifChannel) (recipient : String) (vars : Vars)
    (ticket_id user_id : Option ℕ)
    → Quiet (fire_notification trigger channel recipient vars ticket_id user_id)
unfolding fire_notification
fire_notification-Quiet trigger channel recipient vars ticket_id user_id =
    Quiet-bind {A = Option Rendered} (render-Quiet trigger channel vars) λ template.
      Quiet-with_some template λ (t : Rendered). send-Quiet (record {
        channel = channel;
        recipient = recipient;
        template_name = trigger;
        subject = t.subject;
        body = t.body;
        ticket_id = ticket_id;
        user_id = user_id;
      })
