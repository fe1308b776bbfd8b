-- ===== src/Backend/Rbac.antt =====
-- The authorization plugin, apps/backend/src/plugins/rbac.ts.
pub mod Guard
use argus_monitor.Prelude.{String, Option, none, some, Bool, ◌&&◌, not, if◌then◌else◌}
use argus_monitor.Core.Authorize.{AuthSubject, ResourceContext, AuthzReason, AuthzResult, authorize}
use argus_monitor.Backend.Subject.{is_device_subject}

-- What the preHandler answers: nothing, so that the route goes on, or a reply with a status code.
pub data Verdict : Type 0 where
  pass : Verdict
  unauthorized : Verdict
  device_not_allowed : Verdict
  forbidden : AuthzReason → Verdict

-- The options, with the resource function already applied to the request.
pub record RequirePermissionOpts : Type 0 where
  pub allow_device : Bool
  pub resource : Option ResourceContext

abbrev verdict_of : AuthzResult → Verdict
verdict_of result = if not result.allowed then forbidden result.reason else pass

unfoldable pub require_permission : String → RequirePermissionOpts → Option AuthSubject → Verdict
require_permission action o none = unauthorized
require_permission action o (some subject) =
    if not o.allow_device && is_device_subject subject
    then device_not_allowed
    else verdict_of (authorize subject action o.resource)
