-- ===== src/Domain/People.antt =====
-- Roles and regions: backend/prisma/schema.prisma.
use proman_edge_ace.Prelude.{ℕ, String, zero, suc, ◌≡◌, refl, Eq, enum_eq}

pub data Role : Type 0 where
  call_center asm engineer manager admin cs_support md sales_head_aggregate sales_head_im_bmh
        engineering_design_head manufacturing_head procurement_head stores_head qms_head
        dispatch_head service_aftersales_head finance_head :
      Role

abbrev pub role_index : Role → ℕ
role_index Role.call_center = 0
role_index Role.asm = 1
role_index Role.engineer = 2
role_index Role.manager = 3
role_index Role.admin = 4
role_index Role.cs_support = 5
role_index Role.md = 6
role_index Role.sales_head_aggregate = 7
role_index Role.sales_head_im_bmh = 8
role_index Role.engineering_design_head = 9
role_index Role.manufacturing_head = 10
role_index Role.procurement_head = 11
role_index Role.stores_head = 12
role_index Role.qms_head = 13
role_index Role.dispatch_head = 14
role_index Role.service_aftersales_head = 15
role_index Role.finance_head = 16

abbrev role_of_index : ℕ → Role
role_of_index zero = Role.call_center
role_of_index (suc zero) = Role.asm
role_of_index (suc (suc zero)) = Role.engineer
role_of_index (suc (suc (suc zero))) = Role.manager
role_of_index (suc (suc (suc (suc zero)))) = Role.admin
role_of_index (suc (suc (suc (suc (suc zero))))) = Role.cs_support
role_of_index (suc (suc (suc (suc (suc (suc zero)))))) = Role.md
role_of_index (suc (suc (suc (suc (suc (suc (suc zero))))))) = Role.sales_head_aggregate
role_of_index (suc (suc (suc (suc (suc (suc (suc (suc zero)))))))) = Role.sales_head_im_bmh
role_of_index (suc (suc (suc (suc (suc (suc (suc (suc (suc zero))))))))) =
    Role.engineering_design_head
role_of_index (suc (suc (suc (suc (suc (suc (suc (suc (suc (suc zero)))))))))) =
    Role.manufacturing_head
role_of_index (suc (suc (suc (suc (suc (suc (suc (suc (suc (suc (suc zero))))))))))) =
    Role.procurement_head
role_of_index (suc (suc (suc (suc (suc (suc (suc (suc (suc (suc (suc (suc zero)))))))))))) =
    Role.stores_head
role_of_index (suc (suc (suc (suc (suc (suc (suc (suc (suc (suc (suc (suc (suc zero))))))))))))) =
    Role.qms_head
role_of_index
      (suc (suc (suc (suc (suc (suc (suc (suc (suc (suc (suc (suc (suc (suc zero)))))))))))))) =
    Role.dispatch_head
role_of_index
      (suc
        (suc (suc (suc (suc (suc (suc (suc (suc (suc (suc (suc (suc (suc (suc zero))))))))))))))) =
    Role.service_aftersales_head
role_of_index _ = Role.finance_head

pub role_of_index-role_index : (x : Role) → role_of_index (role_index x) ≡ x
role_of_index-role_index Role.call_center = refl
role_of_index-role_index _ = refl

instance abbrev pub role_eq : Eq Role
role_eq = enum_eq role_index role_of_index role_of_index-role_index

pub data Region : Type 0 where
  north south east west central bangladesh : Region

abbrev pub region_index : Region → ℕ
region_index Region.north = 0
region_index Region.south = 1
region_index Region.east = 2
region_index Region.west = 3
region_index Region.central = 4
region_index Region.bangladesh = 5

abbrev region_of_index : ℕ → Region
region_of_index zero = Region.north
region_of_index (suc zero) = Region.south
region_of_index (suc (suc zero)) = Region.east
region_of_index (suc (suc (suc zero))) = Region.west
region_of_index (suc (suc (suc (suc zero)))) = Region.central
region_of_index _ = Region.bangladesh

pub region_of_index-region_index : (x : Region) → region_of_index (region_index x) ≡ x
region_of_index-region_index Region.north = refl
region_of_index-region_index _ = refl

instance abbrev pub region_eq : Eq Region
region_eq = enum_eq region_index region_of_index region_of_index-region_index

unfoldable pub role_name : Role → String
role_name Role.call_center = "CALL_CENTER"
role_name Role.asm = "ASM"
role_name Role.engineer = "ENGINEER"
role_name Role.manager = "MANAGER"
role_name Role.admin = "ADMIN"
role_name Role.cs_support = "CS_SUPPORT"
role_name Role.md = "MD"
role_name Role.sales_head_aggregate = "SALES_HEAD_AGGREGATE"
role_name Role.sales_head_im_bmh = "SALES_HEAD_IM_BMH"
role_name Role.engineering_design_head = "ENGINEERING_DESIGN_HEAD"
role_name Role.manufacturing_head = "MANUFACTURING_HEAD"
role_name Role.procurement_head = "PROCUREMENT_HEAD"
role_name Role.stores_head = "STORES_HEAD"
role_name Role.qms_head = "QMS_HEAD"
role_name Role.dispatch_head = "DISPATCH_HEAD"
role_name Role.service_aftersales_head = "SERVICE_AFTERSALES_HEAD"
role_name Role.finance_head = "FINANCE_HEAD"

unfoldable pub region_name : Region → String
region_name Region.north = "NORTH"
region_name Region.south = "SOUTH"
region_name Region.east = "EAST"
region_name Region.west = "WEST"
region_name Region.central = "CENTRAL"
region_name Region.bangladesh = "BANGLADESH"
