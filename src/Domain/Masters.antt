-- ===== src/Domain/Masters.antt =====
-- The enumerations of customers, equipment and visits: backend/prisma/schema.prisma.
use proman_edge_ace.Prelude.{ℕ, zero, suc, String, ◌≡◌, refl, Eq, enum_eq}

pub data AccountStatus : Type 0 where
  active inactive blacklisted : AccountStatus

abbrev pub account_status_index : AccountStatus → ℕ
account_status_index AccountStatus.active = 0
account_status_index AccountStatus.inactive = 1
account_status_index AccountStatus.blacklisted = 2

abbrev account_status_of_index : ℕ → AccountStatus
account_status_of_index zero = AccountStatus.active
account_status_of_index (suc zero) = AccountStatus.inactive
account_status_of_index _ = AccountStatus.blacklisted

pub account_status_of_index-account_status_index :
    (x : AccountStatus) → account_status_of_index (account_status_index x) ≡ x
account_status_of_index-account_status_index AccountStatus.active = refl
account_status_of_index-account_status_index _ = refl

instance abbrev pub account_status_eq : Eq AccountStatus
account_status_eq =
    enum_eq account_status_index account_status_of_index
      account_status_of_index-account_status_index

unfoldable pub account_status_name : AccountStatus → String
account_status_name AccountStatus.active = "ACTIVE"
account_status_name AccountStatus.inactive = "INACTIVE"
account_status_name AccountStatus.blacklisted = "BLACKLISTED"

pub data CustomerCategory : Type 0 where
  warranty non_warranty amc : CustomerCategory

unfoldable pub customer_category_name : CustomerCategory → String
customer_category_name CustomerCategory.warranty = "WARRANTY"
customer_category_name CustomerCategory.non_warranty = "NON_WARRANTY"
customer_category_name CustomerCategory.amc = "AMC"

pub data EquipStatus : Type 0 where
  active under_repair decommissioned sold : EquipStatus

abbrev pub equip_status_index : EquipStatus → ℕ
equip_status_index EquipStatus.active = 0
equip_status_index EquipStatus.under_repair = 1
equip_status_index EquipStatus.decommissioned = 2
equip_status_index EquipStatus.sold = 3

abbrev equip_status_of_index : ℕ → EquipStatus
equip_status_of_index zero = EquipStatus.active
equip_status_of_index (suc zero) = EquipStatus.under_repair
equip_status_of_index (suc (suc zero)) = EquipStatus.decommissioned
equip_status_of_index _ = EquipStatus.sold

pub equip_status_of_index-equip_status_index :
    (x : EquipStatus) → equip_status_of_index (equip_status_index x) ≡ x
equip_status_of_index-equip_status_index EquipStatus.active = refl
equip_status_of_index-equip_status_index _ = refl

instance abbrev pub equip_status_eq : Eq EquipStatus
equip_status_eq =
    enum_eq equip_status_index equip_status_of_index equip_status_of_index-equip_status_index

pub data WarrantyStatus : Type 0 where
  under_warranty expiring_soon out_of_warranty : WarrantyStatus

abbrev pub warranty_status_index : WarrantyStatus → ℕ
warranty_status_index WarrantyStatus.under_warranty = 0
warranty_status_index WarrantyStatus.expiring_soon = 1
warranty_status_index WarrantyStatus.out_of_warranty = 2

abbrev warranty_status_of_index : ℕ → WarrantyStatus
warranty_status_of_index zero = WarrantyStatus.under_warranty
warranty_status_of_index (suc zero) = WarrantyStatus.expiring_soon
warranty_status_of_index _ = WarrantyStatus.out_of_warranty

pub warranty_status_of_index-warranty_status_index :
    (x : WarrantyStatus) → warranty_status_of_index (warranty_status_index x) ≡ x
warranty_status_of_index-warranty_status_index WarrantyStatus.under_warranty = refl
warranty_status_of_index-warranty_status_index _ = refl

instance abbrev pub warranty_status_eq : Eq WarrantyStatus
warranty_status_eq =
    enum_eq warranty_status_index warranty_status_of_index
      warranty_status_of_index-warranty_status_index

pub data FsvStatus : Type 0 where
  draft submitted : FsvStatus

abbrev pub fsv_status_index : FsvStatus → ℕ
fsv_status_index FsvStatus.draft = 0
fsv_status_index FsvStatus.submitted = 1

abbrev fsv_status_of_index : ℕ → FsvStatus
fsv_status_of_index zero = FsvStatus.draft
fsv_status_of_index _ = FsvStatus.submitted

pub fsv_status_of_index-fsv_status_index :
    (x : FsvStatus) → fsv_status_of_index (fsv_status_index x) ≡ x
fsv_status_of_index-fsv_status_index FsvStatus.draft = refl
fsv_status_of_index-fsv_status_index _ = refl

instance abbrev pub fsv_status_eq : Eq FsvStatus
fsv_status_eq = enum_eq fsv_status_index fsv_status_of_index fsv_status_of_index-fsv_status_index
