-- ===== src/Domain/Contracts.antt =====
-- The enumerations of quotations, contracts and planned visits: backend/prisma/schema.prisma.
use proman_edge_ace.Prelude.{ℕ, zero, suc, ◌≡◌, refl, Eq, enum_eq}

pub data QuotationStatus : Type 0 where
  draft sent customer_accepted po_received converted_to_sales_order expired cancelled :
      QuotationStatus

abbrev pub quotation_status_index : QuotationStatus → ℕ
quotation_status_index QuotationStatus.draft = 0
quotation_status_index QuotationStatus.sent = 1
quotation_status_index QuotationStatus.customer_accepted = 2
quotation_status_index QuotationStatus.po_received = 3
quotation_status_index QuotationStatus.converted_to_sales_order = 4
quotation_status_index QuotationStatus.expired = 5
quotation_status_index QuotationStatus.cancelled = 6

abbrev quotation_status_of_index : ℕ → QuotationStatus
quotation_status_of_index zero = QuotationStatus.draft
quotation_status_of_index (suc zero) = QuotationStatus.sent
quotation_status_of_index (suc (suc zero)) = QuotationStatus.customer_accepted
quotation_status_of_index (suc (suc (suc zero))) = QuotationStatus.po_received
quotation_status_of_index (suc (suc (suc (suc zero)))) = QuotationStatus.converted_to_sales_order
quotation_status_of_index (suc (suc (suc (suc (suc zero))))) = QuotationStatus.expired
quotation_status_of_index _ = QuotationStatus.cancelled

pub quotation_status_of_index-quotation_status_index :
    (x : QuotationStatus) → quotation_status_of_index (quotation_status_index x) ≡ x
quotation_status_of_index-quotation_status_index QuotationStatus.draft = refl
quotation_status_of_index-quotation_status_index QuotationStatus.sent = refl
quotation_status_of_index-quotation_status_index QuotationStatus.customer_accepted = refl
quotation_status_of_index-quotation_status_index QuotationStatus.po_received = refl
quotation_status_of_index-quotation_status_index QuotationStatus.converted_to_sales_order = refl
quotation_status_of_index-quotation_status_index QuotationStatus.expired = refl
quotation_status_of_index-quotation_status_index QuotationStatus.cancelled = refl

instance abbrev pub quotation_status_eq : Eq QuotationStatus
quotation_status_eq =
    enum_eq quotation_status_index quotation_status_of_index
      quotation_status_of_index-quotation_status_index

pub data DeliveryStatus : Type 0 where
  pending partial delivered : DeliveryStatus

pub data RenewalStatus : Type 0 where
  active renewal_due final_notice lapsed renewed : RenewalStatus

abbrev pub renewal_status_index : RenewalStatus → ℕ
renewal_status_index RenewalStatus.active = 0
renewal_status_index RenewalStatus.renewal_due = 1
renewal_status_index RenewalStatus.final_notice = 2
renewal_status_index RenewalStatus.lapsed = 3
renewal_status_index RenewalStatus.renewed = 4

abbrev renewal_status_of_index : ℕ → RenewalStatus
renewal_status_of_index zero = RenewalStatus.active
renewal_status_of_index (suc zero) = RenewalStatus.renewal_due
renewal_status_of_index (suc (suc zero)) = RenewalStatus.final_notice
renewal_status_of_index (suc (suc (suc zero))) = RenewalStatus.lapsed
renewal_status_of_index _ = RenewalStatus.renewed

pub renewal_status_of_index-renewal_status_index :
    (x : RenewalStatus) → renewal_status_of_index (renewal_status_index x) ≡ x
renewal_status_of_index-renewal_status_index RenewalStatus.active = refl
renewal_status_of_index-renewal_status_index RenewalStatus.renewal_due = refl
renewal_status_of_index-renewal_status_index RenewalStatus.final_notice = refl
renewal_status_of_index-renewal_status_index RenewalStatus.lapsed = refl
renewal_status_of_index-renewal_status_index RenewalStatus.renewed = refl

instance abbrev pub renewal_status_eq : Eq RenewalStatus
renewal_status_eq =
    enum_eq renewal_status_index renewal_status_of_index
      renewal_status_of_index-renewal_status_index

pub data VisitStatus : Type 0 where
  scheduled_pending ticket_raised completed rescheduled : VisitStatus

abbrev pub visit_status_index : VisitStatus → ℕ
visit_status_index VisitStatus.scheduled_pending = 0
visit_status_index VisitStatus.ticket_raised = 1
visit_status_index VisitStatus.completed = 2
visit_status_index VisitStatus.rescheduled = 3

abbrev visit_status_of_index : ℕ → VisitStatus
visit_status_of_index zero = VisitStatus.scheduled_pending
visit_status_of_index (suc zero) = VisitStatus.ticket_raised
visit_status_of_index (suc (suc zero)) = VisitStatus.completed
visit_status_of_index _ = VisitStatus.rescheduled

pub visit_status_of_index-visit_status_index :
    (x : VisitStatus) → visit_status_of_index (visit_status_index x) ≡ x
visit_status_of_index-visit_status_index VisitStatus.scheduled_pending = refl
visit_status_of_index-visit_status_index VisitStatus.ticket_raised = refl
visit_status_of_index-visit_status_index VisitStatus.completed = refl
visit_status_of_index-visit_status_index VisitStatus.rescheduled = refl

instance abbrev pub visit_status_eq : Eq VisitStatus
visit_status_eq =
    enum_eq visit_status_index visit_status_of_index visit_status_of_index-visit_status_index

pub data PartsCoverage : Type 0 where
  no_parts consumables_only all_parts : PartsCoverage

pub data EquipCategory : Type 0 where
  crusher conveyor wagon_tippler stacker_reclaimer screen dry_mortar bulk_reception other :
      EquipCategory

abbrev pub equip_category_index : EquipCategory → ℕ
equip_category_index EquipCategory.crusher = 0
equip_category_index EquipCategory.conveyor = 1
equip_category_index EquipCategory.wagon_tippler = 2
equip_category_index EquipCategory.stacker_reclaimer = 3
equip_category_index EquipCategory.screen = 4
equip_category_index EquipCategory.dry_mortar = 5
equip_category_index EquipCategory.bulk_reception = 6
equip_category_index EquipCategory.other = 7

abbrev equip_category_of_index : ℕ → EquipCategory
equip_category_of_index zero = EquipCategory.crusher
equip_category_of_index (suc zero) = EquipCategory.conveyor
equip_category_of_index (suc (suc zero)) = EquipCategory.wagon_tippler
equip_category_of_index (suc (suc (suc zero))) = EquipCategory.stacker_reclaimer
equip_category_of_index (suc (suc (suc (suc zero)))) = EquipCategory.screen
equip_category_of_index (suc (suc (suc (suc (suc zero))))) = EquipCategory.dry_mortar
equip_category_of_index (suc (suc (suc (suc (suc (suc zero)))))) = EquipCategory.bulk_reception
equip_category_of_index _ = EquipCategory.other

pub equip_category_of_index-equip_category_index :
    (x : EquipCategory) → equip_category_of_index (equip_category_index x) ≡ x
equip_category_of_index-equip_category_index EquipCategory.crusher = refl
equip_category_of_index-equip_category_index EquipCategory.conveyor = refl
equip_category_of_index-equip_category_index EquipCategory.wagon_tippler = refl
equip_category_of_index-equip_category_index EquipCategory.stacker_reclaimer = refl
equip_category_of_index-equip_category_index EquipCategory.screen = refl
equip_category_of_index-equip_category_index EquipCategory.dry_mortar = refl
equip_category_of_index-equip_category_index EquipCategory.bulk_reception = refl
equip_category_of_index-equip_category_index EquipCategory.other = refl

instance abbrev pub equip_category_eq : Eq EquipCategory
equip_category_eq =
    enum_eq equip_category_index equip_category_of_index
      equip_category_of_index-equip_category_index
