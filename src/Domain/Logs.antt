-- ===== src/Domain/Logs.antt =====
-- The enumerations of notifications and the audit log: backend/prisma/schema.prisma.
use proman_edge_ace.Prelude.{ℕ, zero, suc, String, ◌≡◌, refl, Eq, enum_eq}

pub data NotifChannel : Type 0 where
  email sms whatsapp push : NotifChannel

abbrev pub notif_channel_index : NotifChannel → ℕ
notif_channel_index NotifChannel.email = 0
notif_channel_index NotifChannel.sms = 1
notif_channel_index NotifChannel.whatsapp = 2
notif_channel_index NotifChannel.push = 3

abbrev notif_channel_of_index : ℕ → NotifChannel
notif_channel_of_index zero = NotifChannel.email
notif_channel_of_index (suc zero) = NotifChannel.sms
notif_channel_of_index (suc (suc zero)) = NotifChannel.whatsapp
notif_channel_of_index _ = NotifChannel.push

pub notif_channel_of_index-notif_channel_index :
    (x : NotifChannel) → notif_channel_of_index (notif_channel_index x) ≡ x
notif_channel_of_index-notif_channel_index NotifChannel.email = refl
notif_channel_of_index-notif_channel_index _ = refl

instance abbrev pub notif_channel_eq : Eq NotifChannel
notif_channel_eq =
    enum_eq notif_channel_index notif_channel_of_index notif_channel_of_index-notif_channel_index

unfoldable pub notif_channel_name : NotifChannel → String
notif_channel_name NotifChannel.email = "EMAIL"
notif_channel_name NotifChannel.sms = "SMS"
notif_channel_name NotifChannel.whatsapp = "WHATSAPP"
notif_channel_name NotifChannel.push = "PUSH"

pub data NotifStatus : Type 0 where
  sent delivered failed : NotifStatus

pub data ChangeSource : Type 0 where
  web_ui api system_job : ChangeSource

pub data SlaBreachType : Type 0 where
  response resolution level2 level3 : SlaBreachType

abbrev pub sla_breach_type_index : SlaBreachType → ℕ
sla_breach_type_index SlaBreachType.response = 0
sla_breach_type_index SlaBreachType.resolution = 1
sla_breach_type_index SlaBreachType.level2 = 2
sla_breach_type_index SlaBreachType.level3 = 3

abbrev sla_breach_type_of_index : ℕ → SlaBreachType
sla_breach_type_of_index zero = SlaBreachType.response
sla_breach_type_of_index (suc zero) = SlaBreachType.resolution
sla_breach_type_of_index (suc (suc zero)) = SlaBreachType.level2
sla_breach_type_of_index _ = SlaBreachType.level3

pub sla_breach_type_of_index-sla_breach_type_index :
    (x : SlaBreachType) → sla_breach_type_of_index (sla_breach_type_index x) ≡ x
sla_breach_type_of_index-sla_breach_type_index SlaBreachType.response = refl
sla_breach_type_of_index-sla_breach_type_index _ = refl

instance abbrev pub sla_breach_type_eq : Eq SlaBreachType
sla_breach_type_eq =
    enum_eq sla_breach_type_index sla_breach_type_of_index
      sla_breach_type_of_index-sla_breach_type_index
