-- ===== src/Access/Org.antt =====
-- The structure of the plant: packages/domain/src/org.ts. The names for display are left out.
use newport_ms.Base.{String, Bool, true, false, List, [], ◌∷◌, ◌++◌}

-- `DeptKind`
pub data DeptKind : Type 0 where
  technical admin : DeptKind

-- `SubDeptKind`
pub data SubDeptKind : Type 0 where
  production urea ammonia maintenance heat_equipment rotating_equipment electrical valve
        instrumentation general_maintenance lab cooling_tower biometric commercial finance :
      SubDeptKind

-- `SubDeptDef`
pub record SubDeptDef : Type 0 where
  pub section_code : String
  pub section_kind : SubDeptKind
  pub field_work : Bool

-- `DeptDef`
pub record DeptDef : Type 0 where
  pub dept_code : String
  pub dept_kind : DeptKind
  pub sub_departments : List SubDeptDef

abbrev pub sub_dept : String → SubDeptKind → Bool → SubDeptDef
sub_dept code kind field_work = record {
  section_code = code;
  section_kind = kind;
  field_work = field_work;
}

abbrev pub department : String → DeptKind → List SubDeptDef → DeptDef
department code kind subs = record { dept_code = code; dept_kind = kind; sub_departments = subs }

-- `ORG_STRUCTURE`
unfoldable pub org_structure : List DeptDef
org_structure =
    department "PROD" technical (
      sub_dept "PROD-UREA" urea false
      ∷ sub_dept "PROD-AMM" ammonia false
      ∷ sub_dept "PROD-CT" cooling_tower true
      ∷ sub_dept "PROD-LAB" lab true
      ∷ [])
    ∷ department "MAINT" technical (
        sub_dept "MAINT-HEAT" heat_equipment true
        ∷ sub_dept "MAINT-ROT" rotating_equipment true
        ∷ sub_dept "MAINT-ELEC" electrical true
        ∷ sub_dept "MAINT-VALVE" valve true
        ∷ sub_dept "MAINT-INST" instrumentation true
        ∷ sub_dept "MAINT-GEN" general_maintenance true
        ∷ [])
    ∷ department "ADMIN" admin (
        sub_dept "ADM-BIO" biometric false
        ∷ sub_dept "ADM-COM" commercial false
        ∷ sub_dept "ADM-FIN" finance false
        ∷ [])
    ∷ []

abbrev pub subs_of : List DeptDef → List SubDeptDef
subs_of [] = []
subs_of (d ∷ ds) = d.sub_departments ++ subs_of ds

-- `ALL_SUBDEPTS`
unfoldable pub all_subdepts : List SubDeptDef
all_subdepts = subs_of org_structure
