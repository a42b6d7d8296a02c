-- ===== src/Engine/Values.antt =====
-- The tools at the end of apps/api/src/sync/sync-engine.service.ts: what the engine takes of a device's
-- data, what it stamps, and how it compares and encodes values. A row that is read has no
-- `Date`s or buffers any more.
use newport_ms.Base.{
  String, Bool, true, false, not, ◌&&◌, ◌||◌, Option, none, some, List, [], ◌∷◌, map, str_eq, any,
  keep, includes, if◌then◌else◌, ◌==◌,
}
use newport_ms.Engine.Database.{without}
use newport_ms.Engine.Entities.{denied_columns}
use newport_ms.Json.{Value, Object, str, num, dec, bool, null, arr, obj, get, object_is}
use newport_ms.Json.Show.{decimal, stringify}
use newport_ms.Security.Guard.{AccessContext}

-- `safeColumns`, of the columns that a table has.
abbrev pub safe_columns : List String → List String
safe_columns cols = keep (λ c. not (includes denied_columns c)) cols

-- `sanitize(data, cols)`
unfoldable pub sanitize : Object → List String → Object
sanitize [] cols = []
sanitize ((k, v) ∷ o) cols =
    let rest = sanitize o cols in
    if not (includes cols k) || includes denied_columns k then rest else (k, v) ∷ rest

-- `serverStamp(entity, access)`
unfoldable pub server_stamp : String → AccessContext → Object
server_stamp e a =
    if str_eq e "workOrder"
    then ("facilityId", str a.profile.facility)
      ∷ ("departmentId", str a.profile.dept)
      ∷ ("subDeptId", str a.profile.sub_dept)
      ∷ ("createdById", str a.user_id)
      ∷ []
    else if str_eq e "shiftLog"
    then ("facilityId", str a.profile.facility) ∷ ("preparedById", str a.user_id) ∷ []
    else if str_eq e "labSample"
    then ("subDeptId", str a.profile.sub_dept) ∷ ("collectedById", str a.user_id) ∷ []
    else if str_eq e "permit"
    then ("requestedById", str a.user_id) ∷ []
    else if str_eq e "document"
    then ("uploadedById", str a.user_id) ∷ []
    else if str_eq e "assetReading"
    then ("byUserId", str a.user_id) ∷ []
    else if str_eq e "workOrderLog"
    then ("byUserId", str a.user_id) ∷ []
    else if str_eq e "notificationAck"
    then ("userId", str a.user_id) ∷ []
    else []

-- `!!v`
unfoldable pub is_truthy : Option Value → Bool
is_truthy none = false
is_truthy (some null) = false
is_truthy (some (bool b)) = b
is_truthy (some (num n)) = not (n == 0)
is_truthy (some (str s)) = not (str_eq s "")
is_truthy (some (dec t)) = not (str_eq t "NaN")
is_truthy (some _) = true

abbrev pub status_in : List String → Object → Bool
status_in ss row = any (λ s. object_is (get "status" row) (str s)) ss

-- `isApproved(row, entity)`; a status is a text.
unfoldable pub is_approved : Object → String → Bool
is_approved row e =
    if str_eq e "shiftLog"
    then status_in ("APPROVED" ∷ "LOCKED" ∷ []) row
    else if str_eq e "workOrder"
    then status_in ("CLOSED" ∷ "APPROVED" ∷ "ASSIGNED" ∷ []) row && is_truthy (get "approverId" row)
    else if str_eq e "labResult" || str_eq e "labSample"
    then is_truthy (get "verifiedById" row) || status_in ("VERIFIED" ∷ []) row
    else if str_eq e "permit"
    then status_in ("APPROVED_BY_AREA" ∷ "APPROVED_BY_HSE" ∷ "OPEN" ∷ "EXTENDED" ∷ []) row
    else false

-- `typeof v === 'object'`, which null is too.
abbrev is_object : Option Value → Bool
is_object (some null) = true
is_object (some (arr vs)) = true
is_object (some (obj fs)) = true
is_object _ = false

abbrev same_text : Option Value → Value → Bool
same_text (some (num n)) (str t) = str_eq (decimal n) t
same_text (some (dec s)) (str t) = str_eq s t
same_text _ _ = false

abbrev text_value : Option Value → String
text_value none = ""
text_value (some v) = stringify v

-- `sameValue(a, b)`
unfoldable pub same_value : Option Value → Value → Bool
same_value a b =
    object_is a b
    || is_object a && is_object (some b) && str_eq (text_value a) (stringify b)
    || same_text a b

-- `encode(v)`
unfoldable pub encode : Value → Option String
encode null = none
encode (str s) = some s
encode (num n) = some (decimal n)
encode (dec t) = some t
encode (bool true) = some "true"
encode (bool false) = some "false"
encode v = some (stringify v)

-- The keys with their values encoded, as a statement takes them.
abbrev pub encoded : Object → List (String × Option String)
encoded o = map (λ m. (m.0, encode m.1)) o

-- What `stripSecrets` removes.
abbrev pub secret_keys : List String
secret_keys = "passwordHash" ∷ "clientOpId" ∷ "syncCursor" ∷ "failedAttempts" ∷ "lockedUntil" ∷ []

-- `stripSecrets(payload)`
unfoldable pub strip_secrets : Object → Object
strip_secrets o = without secret_keys o
