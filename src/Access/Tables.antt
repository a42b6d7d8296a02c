-- ===== src/Access/Tables.antt =====
-- The tables of packages/domain/src/roles.ts: the sets of permissions, the roles, and what is granted
-- to each role in a section (`ACCESS_MATRIX`) and in the whole plant (`GLOBAL_GRANTS`).
use newport_ms.Base.{String, Option, none, some, List, [], ◌∷◌, ◌++◌}
use newport_ms.Access.Permissions.{DataScope, subdept, dept, all_scope}

abbrev pub base_set : List String
base_set =
    ("auth.login" ∷ "sync.pull" ∷ "sync.push" ∷ "notif.view" ∷ "org.dept.view" ∷ "hr.leave.view"
      ∷ "hr.leave.request" ∷ "doc.view" ∷ "doc.upload" ∷ "hr.att.view" ∷ "prod.log.view" ∷ [])

abbrev pub report_set : List String
report_set = ("report.view" ∷ "report.export" ∷ [])

abbrev pub hr_own_set : List String
hr_own_set =
    ("hr.shift.view" ∷ "hr.form.view" ∷ "hr.att.view" ∷ "hr.leave.view" ∷ "hr.leave.request" ∷ [])

abbrev pub wo_executor_set : List String
wo_executor_set =
    ("maint.wo.view" ∷ "maint.wo.execute" ∷ "maint.wo.close" ∷ "maint.asset.view"
      ∷ "maint.condition.record" ∷ "maint.permit.view" ∷ "maint.permit.create" ∷ "wh.req.create"
      ∷ "wh.return" ∷ "prod.downtime.create" ∷ "hr.form.create" ∷ "lab.sample.view" ∷ [])

abbrev pub wo_approver_set : List String
wo_approver_set =
    ("maint.wo.view" ∷ "maint.wo.create" ∷ "maint.wo.assign" ∷ "maint.wo.execute" ∷ "maint.wo.close"
      ∷ "maint.wo.cancel" ∷ "maint.asset.view" ∷ "maint.asset.manage" ∷ "maint.condition.view"
      ∷ "maint.condition.record" ∷ "maint.pm.manage" ∷ "maint.backlog.view"
      ∷ "maint.downtime.verify" ∷ "maint.permit.view" ∷ "maint.permit.create"
      ∷ "maint.permit.approve" ∷ "wh.item.view" ∷ "wh.req.create" ∷ "wh.req.approve" ∷ "wh.return"
      ∷ "report.view" ∷ "report.export" ∷ "prod.log.view" ∷ "prod.downtime.view" ∷ "hr.att.view"
      ∷ "hr.emp.view" ∷ "hr.shift.view" ∷ "hr.leave.approve" ∷ "hr.form.view" ∷ "doc.upload" ∷ [])

abbrev pub shift_log_set : List String
shift_log_set =
    ("prod.log.view" ∷ "prod.log.create" ∷ "prod.log.update" ∷ "prod.param.create"
      ∷ "prod.param.view" ∷ "prod.alarm.ack" ∷ "prod.downtime.create" ∷ "prod.downtime.view"
      ∷ "lab.sample.view" ∷ [])

abbrev pub shift_log_head_set : List String
shift_log_head_set =
    ("prod.log.view" ∷ "prod.log.create" ∷ "prod.log.update" ∷ "prod.log.approve"
      ∷ "prod.param.create" ∷ "prod.param.view" ∷ "prod.alarm.ack" ∷ "prod.downtime.create"
      ∷ "prod.downtime.view" ∷ "maint.wo.view" ∷ "maint.wo.create" ∷ "lab.sample.create"
      ∷ "lab.sample.view" ∷ "lab.result.view" ∷ "fin.cost.view" ∷ "report.view" ∷ "report.export"
      ∷ "doc.upload" ∷ "hr.att.view" ∷ "hr.shift.view" ∷ "hr.leave.approve" ∷ [])

abbrev pub doc_set : List String
doc_set = ("doc.upload" ∷ [])

abbrev pub base_read_only_set : List String
base_read_only_set =
    ("auth.login" ∷ "sync.pull" ∷ "notif.view" ∷ "org.dept.view" ∷ "doc.view" ∷ "hr.att.view"
      ∷ "prod.log.view" ∷ [])

abbrev pub lab_reads : List String
lab_reads = ("lab.sample.view" ∷ "lab.result.view" ∷ "lab.oos.view" ∷ [])

-- `RoleDef`: the role and its default scope.
-- `ROLE_DEFS`
unfoldable pub role_defs : List (String × DataScope)
role_defs =
    ("SYS_ADMIN", all_scope)
    ∷ ("PLANT_MANAGER", all_scope)
    ∷ ("DEPT_MANAGER", dept)
    ∷ ("SECTION_HEAD", subdept)
    ∷ ("SHIFT_SUPERVISOR", subdept)
    ∷ ("CONTROL_ROOM_OPERATOR", subdept)
    ∷ ("FIELD_TECHNICIAN", subdept)
    ∷ ("PLANNER", dept)
    ∷ ("LAB_ANALYST", subdept)
    ∷ ("LAB_SUPERVISOR", subdept)
    ∷ ("STORE_KEEPER", dept)
    ∷ ("WAREHOUSE_SUPERVISOR", dept)
    ∷ ("HR_OFFICER", all_scope)
    ∷ ("PAYROLL_OFFICER", all_scope)
    ∷ ("COMMERCIAL_OFFICER", dept)
    ∷ ("ACCOUNTANT", all_scope)
    ∷ ("FINANCE_MANAGER", all_scope)
    ∷ ("HSE_OFFICER", all_scope)
    ∷ ("DOC_CONTROLLER", all_scope)
    ∷ ("AUDITOR", all_scope)
    ∷ ("READONLY_GUEST", dept)
    ∷ []

-- `READ_ONLY_ROLES`
abbrev pub read_only_roles : List String
read_only_roles = "AUDITOR" ∷ "READONLY_GUEST" ∷ []

-- `Grant`; absent permissions are none, as the reader takes them.
pub record Grant : Type 0 where
  pub role : String
  pub grant_scope : Option DataScope
  pub permissions : List String
  pub extra : List String
  pub deny : List String

-- `SubDeptAccess`
pub record SubDeptAccess : Type 0 where
  pub sub_dept_code : String
  pub grants : List Grant

abbrev pub to_role : String → Option DataScope → List String → Grant
to_role role scope permissions = record {
  role = role;
  grant_scope = scope;
  permissions = permissions;
  extra = [];
  deny = [];
}

abbrev pub section : String → List Grant → SubDeptAccess
section code grants = record { sub_dept_code = code; grants = grants }

-- `ACCESS_MATRIX`
unfoldable pub access_matrix : List SubDeptAccess
access_matrix =
    section "PROD-UREA" (
      to_role "SECTION_HEAD" none (
        shift_log_head_set
        ++ ("lab.result.enter" ∷ "lab.report.export" ∷ "lab.oos.manage" ∷ "lab.oos.view"
            ∷ "wh.item.view" ∷ []))
      ∷ to_role "SHIFT_SUPERVISOR" none
          (shift_log_set ++ ("maint.wo.create" ∷ "lab.sample.create" ∷ "doc.upload" ∷ []))
      ∷ to_role "CONTROL_ROOM_OPERATOR" none (shift_log_set ++ ("maint.wo.create" ∷ []))
      ∷ to_role "FIELD_TECHNICIAN" none (wo_executor_set ++ ("prod.param.create" ∷ []))
      ∷ [])
    ∷ section "PROD-AMM" (
        to_role "SECTION_HEAD" none
          (shift_log_head_set ++ ("prod.utility.manage" ∷ "lab.sample.create" ∷ []))
        ∷ to_role "SHIFT_SUPERVISOR" none
            (shift_log_set ++ ("maint.wo.create" ∷ "lab.sample.create" ∷ "doc.upload" ∷ []))
        ∷ to_role "CONTROL_ROOM_OPERATOR" none
            (shift_log_set ++ ("maint.wo.create" ∷ "lab.sample.create" ∷ []))
        ∷ [])
    ∷ section "PROD-CT" (
        to_role "SECTION_HEAD" none
          (shift_log_head_set ++ ("prod.utility.manage" ∷ "lab.sample.create" ∷ []))
        ∷ to_role "SHIFT_SUPERVISOR" none (
            shift_log_set ++ ("prod.utility.manage" ∷ "maint.wo.create" ∷ "lab.sample.create" ∷ []))
        ∷ to_role "FIELD_TECHNICIAN" none
            (wo_executor_set ++ ("prod.utility.manage" ∷ "prod.param.create" ∷ []))
        ∷ [])
    ∷ section "PROD-LAB" (
        to_role "SECTION_HEAD" none (
          lab_reads
          ++ ("lab.sample.create" ∷ "lab.result.enter" ∷ "lab.result.verify" ∷ "lab.report.export"
              ∷ "lab.oos.manage" ∷ "prod.param.view" ∷ "prod.downtime.view" ∷ "maint.wo.create"
              ∷ "maint.wo.view" ∷ "report.view" ∷ "report.export" ∷ "doc.upload" ∷ "hr.att.view"
              ∷ []))
        ∷ to_role "LAB_SUPERVISOR" none (
            lab_reads
            ++ ("lab.sample.create" ∷ "lab.result.enter" ∷ "lab.result.verify" ∷ "lab.report.export"
                ∷ "lab.oos.manage" ∷ "prod.param.view" ∷ "doc.upload" ∷ []))
        ∷ to_role "LAB_ANALYST" none (
            lab_reads
            ++ ("lab.sample.create" ∷ "lab.result.enter" ∷ "lab.oos.manage" ∷ "prod.param.view"
                ∷ "doc.upload" ∷ []))
        ∷ [])
    ∷ section "MAINT-HEAT" (
        to_role "SECTION_HEAD" none (wo_approver_set)
        ∷ to_role "FIELD_TECHNICIAN" none
            (wo_executor_set ++ ("lab.sample.create" ∷ "lab.result.enter" ∷ "lab.result.view" ∷ []))
        ∷ to_role "HSE_OFFICER" (some dept)
            (("maint.permit.approve" ∷ "maint.permit.view" ∷ "maint.wo.view" ∷ []))
        ∷ [])
    ∷ section "MAINT-ROT" (
        to_role "SECTION_HEAD" none (wo_approver_set)
        ∷ to_role "FIELD_TECHNICIAN" none (wo_executor_set)
        ∷ [])
    ∷ section "MAINT-ELEC" (
        to_role "SECTION_HEAD" none (wo_approver_set)
        ∷ to_role "FIELD_TECHNICIAN" none
            (wo_executor_set ++ ("maint.condition.record" ∷ "maint.permit.approve" ∷ []))
        ∷ [])
    ∷ section "MAINT-VALVE" (
        to_role "SECTION_HEAD" none
          (wo_approver_set ++ ("maint.asset.manage" ∷ "wh.item.view" ∷ []))
        ∷ to_role "FIELD_TECHNICIAN" none (wo_executor_set)
        ∷ [])
    ∷ section "MAINT-INST" (
        to_role "SECTION_HEAD" none (wo_approver_set ++ ("maint.asset.manage" ∷ []))
        ∷ to_role "FIELD_TECHNICIAN" none (wo_executor_set)
        ∷ [])
    ∷ section "MAINT-GEN" (
        to_role "SECTION_HEAD" none (wo_approver_set)
        ∷ to_role "FIELD_TECHNICIAN" none (wo_executor_set ++ ("maint.permit.create" ∷ []))
        ∷ [])
    ∷ section "ADM-BIO" (
        to_role "HR_OFFICER" (some all_scope) (
          ("hr.att.all" ∷ "hr.att.correct" ∷ "hr.att.import" ∷ "hr.att.export_payroll"
            ∷ "hr.shift.view" ∷ "hr.shift.manage" ∷ "hr.leave.approve" ∷ "hr.emp.view"
            ∷ "org.delegation.manage" ∷ "report.view" ∷ "report.export" ∷ "doc.upload"
            ∷ "auth.login" ∷ "notif.view" ∷ "sync.pull" ∷ []))
        ∷ to_role "SECTION_HEAD" (some subdept) (
            ("hr.att.view" ∷ "hr.att.correct" ∷ "hr.shift.view" ∷ "hr.shift.manage" ∷ "hr.emp.view"
              ∷ "hr.leave.approve" ∷ "report.view" ∷ []))
        ∷ to_role "PAYROLL_OFFICER" (some all_scope) (
            ("hr.att.view" ∷ "hr.att.export_payroll" ∷ "hr.emp.view" ∷ "fin.payroll.view"
              ∷ "report.view" ∷ "report.export" ∷ []))
        ∷ to_role "SYS_ADMIN" (some all_scope) (("admin.system" ∷ "org.dept.view" ∷ []))
        ∷ [])
    ∷ section "ADM-COM" (
        to_role "SECTION_HEAD" none (
          ("com.order.view" ∷ "com.order.create" ∷ "com.order.confirm" ∷ "com.customer.manage"
            ∷ "com.pricing.manage" ∷ "com.report.export" ∷ "fin.coa.view" ∷ "fin.cost.view"
            ∷ "fin.invoice.manage" ∷ "report.view" ∷ "report.export" ∷ "doc.upload" ∷ "doc.manage"
            ∷ "hr.att.view" ∷ "maint.wo.create" ∷ "prod.downtime.view" ∷ []))
        ∷ to_role "COMMERCIAL_OFFICER" (some dept) (
            ("com.order.view" ∷ "com.order.create" ∷ "com.order.confirm" ∷ "com.customer.manage"
              ∷ "com.report.export" ∷ "report.view" ∷ "doc.upload" ∷ "prod.log.view" ∷ []))
        ∷ [])
    ∷ section "ADM-FIN" (
        to_role "SECTION_HEAD" none (
          ("fin.coa.view" ∷ "fin.journal.manage" ∷ "fin.cost.view" ∷ "fin.po.view"
            ∷ "fin.po.approve" ∷ "fin.invoice.manage" ∷ "fin.grn_finance" ∷ "fin.payroll.view"
            ∷ "fin.payroll.run" ∷ "fin.ar_collect" ∷ "fin.budget.view" ∷ "fin.budget.manage"
            ∷ "fin.rate.manage" ∷ "maint.backlog.view" ∷ "report.view" ∷ "report.export"
            ∷ "doc.upload" ∷ "doc.manage" ∷ "audit.view" ∷ "hr.emp.view" ∷ "hr.att.export_payroll"
            ∷ []))
        ∷ to_role "FINANCE_MANAGER" (some all_scope) (
            ("fin.po.approve" ∷ "fin.budget.manage" ∷ "fin.payroll.run" ∷ "fin.ar_collect"
              ∷ "fin.rate.manage" ∷ "fin.journal.manage" ∷ "fin.invoice.manage" ∷ "fin.grn_finance"
              ∷ "fin.coa.view" ∷ "fin.cost.view" ∷ "report.view" ∷ "report.export" ∷ "audit.view"
              ∷ []))
        ∷ to_role "ACCOUNTANT" (some all_scope) (
            ("fin.journal.manage" ∷ "fin.invoice.manage" ∷ "fin.grn_finance" ∷ "fin.ar_collect"
              ∷ "fin.coa.view" ∷ "fin.cost.view" ∷ "fin.po.view" ∷ "report.view" ∷ "report.export"
              ∷ "doc.upload" ∷ []))
        ∷ to_role "AUDITOR" (some all_scope) (
            ("fin.coa.view" ∷ "fin.journal.manage" ∷ "fin.cost.view" ∷ "fin.po.view" ∷ "audit.view"
              ∷ "audit.export" ∷ "report.view" ∷ "report.export" ∷ []))
        ∷ [])
    ∷ []

-- A member of `GLOBAL_GRANTS`.
pub record GlobalGrant : Type 0 where
  pub global_role : String
  pub global_scope : DataScope
  pub global_permissions : List String

abbrev pub in_plant : String → DataScope → List String → GlobalGrant
in_plant role scope permissions = record {
  global_role = role;
  global_scope = scope;
  global_permissions = permissions;
}

-- `GLOBAL_GRANTS`, before `uniq`.
unfoldable pub global_grants : List GlobalGrant
global_grants =
    in_plant "SYS_ADMIN" all_scope (
      ("org.dept.manage" ∷ "org.user.manage" ∷ "org.user.view" ∷ "org.role.manage" ∷ "admin.system"
        ∷ "audit.view" ∷ "audit.export" ∷ "doc.manage" ∷ "report.kpi.manage" ∷ "auth.login"
        ∷ "notif.view" ∷ "sync.pull" ∷ "org.dept.view" ∷ "hr.emp.view" ∷ []))
    ∷ in_plant "PLANT_MANAGER" all_scope (
        report_set
        ++ ("prod.log.approve" ∷ "maint.wo.view" ∷ "maint.wo.assign" ∷ "maint.wo.close"
            ∷ "maint.permit.approve" ∷ "maint.backlog.view" ∷ "maint.asset.view"
            ∷ "lab.result.verify" ∷ [])
        ++ lab_reads
        ++ ("fin.budget.view" ∷ "fin.cost.view" ∷ "fin.po.approve" ∷ "com.order.view"
            ∷ "hr.leave.approve" ∷ "hr.att.all" ∷ "hr.shift.view" ∷ "org.delegation.manage"
            ∷ "audit.view" ∷ "doc.manage" ∷ "report.kpi.manage" ∷ []))
    ∷ in_plant "DEPT_MANAGER" dept (
        ("prod.log.approve" ∷ "maint.wo.assign" ∷ "maint.wo.close" ∷ "maint.wo.cancel"
          ∷ "maint.pm.manage" ∷ "maint.asset.manage" ∷ "maint.backlog.view" ∷ "maint.permit.approve"
          ∷ "maint.downtime.verify" ∷ "wh.req.approve" ∷ "wh.issue" ∷ "wh.grn" ∷ "wh.stocktake"
          ∷ "wh.manage" ∷ "hr.leave.approve" ∷ "hr.shift.manage" ∷ "hr.att.correct" ∷ "hr.form.view"
          ∷ "prod.downtime.view" ∷ "prod.param.view" ∷ "com.order.confirm" ∷ "fin.cost.view"
          ∷ "fin.budget.view" ∷ "report.view" ∷ "report.export" ∷ "doc.view" ∷ "doc.upload"
          ∷ "audit.view" ∷ "auth.login" ∷ "sync.pull" ∷ "sync.push" ∷ "notif.view" ∷ "org.dept.view"
          ∷ "lab.sample.view" ∷ "lab.result.view" ∷ []))
    ∷ in_plant "HSE_OFFICER" all_scope (
        ("maint.permit.approve" ∷ "maint.permit.view" ∷ "maint.wo.view" ∷ "prod.downtime.view"
          ∷ "lab.oos.manage" ∷ "lab.oos.view" ∷ "lab.result.view" ∷ "report.view" ∷ "doc.upload"
          ∷ "auth.login" ∷ "notif.view" ∷ "sync.pull" ∷ "sync.push" ∷ []))
    ∷ in_plant "DOC_CONTROLLER" all_scope (
        ("doc.manage" ∷ "doc.upload" ∷ "doc.view" ∷ "report.export" ∷ "auth.login" ∷ "notif.view"
          ∷ "sync.pull" ∷ "admin.system" ∷ []))
    ∷ in_plant "PLANNER" dept (
        ("maint.pm.manage" ∷ "maint.wo.assign" ∷ "maint.wo.view" ∷ "maint.backlog.view"
          ∷ "wh.item.view" ∷ "wh.req.approve" ∷ "prod.downtime.view" ∷ "maint.condition.view"
          ∷ "report.view" ∷ "report.export" ∷ "fin.cost.view" ∷ "auth.login" ∷ "sync.pull"
          ∷ "sync.push" ∷ "notif.view" ∷ []))
    ∷ in_plant "READONLY_GUEST" dept (
        ("report.view" ∷ "prod.log.view" ∷ "prod.param.view" ∷ "maint.wo.view"
          ∷ "maint.backlog.view" ∷ "wh.item.view" ∷ "com.order.view" ∷ "fin.budget.view"
          ∷ "lab.sample.view" ∷ "lab.result.view" ∷ "auth.login" ∷ "notif.view" ∷ []))
    ∷ []

-- `EVERY_USER_GRANT.permissions`, in the scope SELF.
abbrev pub every_user_permissions : List String
every_user_permissions =
    ("hr.leave.view" ∷ "hr.leave.request" ∷ "hr.form.create" ∷ "hr.att.view" ∷ "hr.shift.view"
      ∷ "hr.form.view" ∷ "doc.upload" ∷ [])
