-- ===== src/Access/Permissions.antt =====
-- The register of permissions: packages/domain/src/permissions.ts. A code is the text that is stored;
-- the names for display are left out.
use newport_ms.Base.{String, Bool, true, false, Option, is_some, List, [], ◌∷◌, find, str_eq}

-- `DataScope`
pub data DataScope : Type 0 where
  self team subdept dept all_scope : DataScope

-- `PermissionDef`, without the parts of the code that only filters read.
pub record PermissionDef : Type 0 where
  pub code : String
  pub max_scope : DataScope
  pub offline_capable : Bool

abbrev pub def : String → DataScope → Bool → PermissionDef
def code max_scope offline_capable = record {
  code = code;
  max_scope = max_scope;
  offline_capable = offline_capable;
}

-- `PERMISSION_DEFS`
unfoldable pub permission_defs : List PermissionDef
permission_defs =
    def "org.dept.view" all_scope false
    ∷ def "org.dept.manage" all_scope false
    ∷ def "org.user.view" all_scope false
    ∷ def "org.user.manage" all_scope false
    ∷ def "org.role.manage" all_scope false
    ∷ def "org.delegation.manage" all_scope false
    ∷ def "auth.login" all_scope false
    ∷ def "sync.pull" all_scope true
    ∷ def "sync.push" all_scope true
    ∷ def "notif.view" all_scope false
    ∷ def "prod.log.view" dept false
    ∷ def "prod.log.create" subdept true
    ∷ def "prod.log.update" subdept true
    ∷ def "prod.log.approve" all_scope false
    ∷ def "prod.param.create" subdept true
    ∷ def "prod.param.view" dept false
    ∷ def "prod.alarm.ack" subdept true
    ∷ def "prod.downtime.create" subdept true
    ∷ def "prod.downtime.view" all_scope false
    ∷ def "prod.utility.manage" subdept true
    ∷ def "lab.sample.view" all_scope false
    ∷ def "lab.result.view" all_scope false
    ∷ def "lab.oos.view" all_scope false
    ∷ def "lab.sample.create" subdept true
    ∷ def "lab.result.enter" subdept true
    ∷ def "lab.result.verify" all_scope false
    ∷ def "lab.report.export" subdept false
    ∷ def "lab.oos.manage" all_scope false
    ∷ def "maint.asset.view" all_scope false
    ∷ def "maint.asset.manage" dept false
    ∷ def "maint.wo.view" all_scope false
    ∷ def "maint.wo.create" subdept true
    ∷ def "maint.wo.assign" all_scope false
    ∷ def "maint.wo.execute" subdept true
    ∷ def "maint.wo.close" all_scope true
    ∷ def "maint.wo.cancel" dept false
    ∷ def "maint.pm.manage" dept false
    ∷ def "maint.condition.record" subdept true
    ∷ def "maint.condition.view" dept false
    ∷ def "maint.permit.view" all_scope false
    ∷ def "maint.permit.create" subdept true
    ∷ def "maint.permit.approve" all_scope false
    ∷ def "maint.backlog.view" all_scope false
    ∷ def "maint.downtime.verify" dept false
    ∷ def "wh.item.view" dept false
    ∷ def "wh.req.create" subdept true
    ∷ def "wh.req.approve" dept false
    ∷ def "wh.issue" dept false
    ∷ def "wh.grn" dept false
    ∷ def "wh.return" subdept true
    ∷ def "wh.stocktake" dept false
    ∷ def "wh.manage" dept false
    ∷ def "hr.emp.view" all_scope false
    ∷ def "hr.emp.manage" subdept false
    ∷ def "hr.att.view" all_scope false
    ∷ def "hr.att.all" all_scope false
    ∷ def "hr.att.correct" all_scope false
    ∷ def "hr.att.import" all_scope false
    ∷ def "hr.att.export_payroll" all_scope false
    ∷ def "hr.shift.view" all_scope false
    ∷ def "hr.shift.manage" all_scope false
    ∷ def "hr.leave.view" self false
    ∷ def "hr.leave.request" self true
    ∷ def "hr.leave.approve" all_scope false
    ∷ def "hr.form.create" subdept true
    ∷ def "hr.form.view" dept false
    ∷ def "com.order.view" all_scope false
    ∷ def "com.order.create" dept true
    ∷ def "com.order.confirm" dept false
    ∷ def "com.customer.manage" dept false
    ∷ def "com.pricing.manage" subdept false
    ∷ def "com.report.export" dept false
    ∷ def "fin.coa.view" all_scope false
    ∷ def "fin.journal.manage" all_scope false
    ∷ def "fin.cost.view" all_scope false
    ∷ def "fin.po.view" all_scope false
    ∷ def "fin.po.approve" all_scope false
    ∷ def "fin.invoice.manage" all_scope false
    ∷ def "fin.grn_finance" all_scope false
    ∷ def "fin.payroll.view" all_scope false
    ∷ def "fin.payroll.run" all_scope false
    ∷ def "fin.ar_collect" all_scope false
    ∷ def "fin.budget.view" all_scope false
    ∷ def "fin.budget.manage" all_scope false
    ∷ def "fin.rate.manage" all_scope false
    ∷ def "doc.upload" all_scope true
    ∷ def "doc.view" all_scope false
    ∷ def "doc.manage" all_scope false
    ∷ def "report.view" all_scope false
    ∷ def "report.export" all_scope false
    ∷ def "report.kpi.manage" all_scope false
    ∷ def "audit.view" all_scope false
    ∷ def "audit.export" all_scope false
    ∷ def "admin.system" all_scope false
    ∷ []

-- `permission(code)`; `none` is its exception.
unfoldable pub permission : String → Option PermissionDef
permission code = find (λ p. str_eq p.code code) permission_defs

-- `isPermissionCode(x)`
unfoldable pub is_permission_code : String → Bool
is_permission_code x = is_some (permission x)
