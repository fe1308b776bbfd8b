-- ===== src/Core/Tests.antt =====
-- Concrete runs of the domain core, packages/core/src.
mod Secrets
use argus_monitor.Prelude.{
  ◌+◌, ◌*◌, ◌/◌, ◌≤◌, ◌<◌, ◌≡◌, inr, refl, arith, Option, none, some, List, [], ◌∷◌, true, false,
  In, here, there, includes, filter,
}
use argus_monitor.Prelude.Int.{pos}
use argus_monitor.Shared.{up, degraded, hang, down}
use argus_monitor.Core.Authorize.{AuthSubject, exactly, one_of, ResourceContext, authorize, can}
use argus_monitor.Core.Authorize.Decision.{Explains, permits, authorize-Explains, can_iff, can_mono}
use argus_monitor.Core.Rollup.{MonitoredUnit, is_bad, critical_loop, bad_loop, rollup}
use argus_monitor.Core.Rollup.Meaning.{Means, rollup-Means}
use argus_monitor.Core.Uptime.{empty_bucket, uptime_pct}
use argus_monitor.Core.Uptime.Account.{Interval, run, uptime_pct-near}
use argus_monitor.Core.Diff.{UnitSample, Snapshot, service_restart, diff_states, diff_clients}
use argus_monitor.Core.Diff.Events.{diff_states_iff}
use argus_monitor.Core.Diff.Clients.{apply_clients, diff_clients-apply}
use argus_monitor.Core.Audit.{
  Value, null, text, obj, end, field, AuditEntryInput, redact, build_audit_entry,
}
use argus_monitor.Core.Audit.Redaction.{IsClean, redact-fixed_iff, build_audit_entry-IsClean}
use argus_monitor.Core.Ticker.{TickerWindow, active_tickers, is_ticker_active}
use argus_monitor.Core.Ticker.Order.{Descends, of_priority, active_tickers-Descends}
use argus_monitor.Core.Base32.{
  base32_encode, base32_decode, upper, is_space, strip_padding, decode_from, index_of, clean,
}
use argus_monitor.Core.Base32.Roundtrip.{base32_decode-encode}

abbrev operator : AuthSubject
operator = record {
  user_id = "u1";
  is_owner = false;
  permissions = "agents:read" ∷ "agents:write" ∷ [];
  attributes = record { key = "site"; value = "london" } ∷ [];
}

abbrev london : Option ResourceContext
london = some (record {
  required_attributes = some (("site", some (one_of ("paris" ∷ "london" ∷ []))) ∷ []);
  owner_user_id = none;
})

abbrev paris : Option ResourceContext
paris = some (record {
  required_attributes = some (("site", some (exactly "paris")) ∷ []);
  owner_user_id = none;
})

can_iff_example : can operator "agents:write" london ≡ true
can_iff_example = (can_iff operator "agents:write" london).1 (
    inr (
      there (here refl),
      ((record { key = "site"; value = "london" }, here refl, refl, there (here refl)), tt),
    ))

abbrev owner : AuthSubject
owner = record {
  user_id = "u0";
  is_owner = true;
  permissions = operator.permissions;
  attributes = operator.attributes;
}

abbrev units : List MonitoredUnit
units = record { status = up; critical = true } ∷ record { status = hang; critical = false } ∷ []

abbrev hours : List Interval
hours = (up, pos 3000) ∷ (down, pos 600) ∷ []

uptime_pct-near_example :
    (uptime_pct (run empty_bucket hours) ≤ 10000)
    × (2 * 3600 * uptime_pct (run empty_bucket hours) ≤ 20000 * 3000 + 3600)
    × (20000 * 3000 < 2 * 3600 * uptime_pct (run empty_bucket hours) + 3600)
uptime_pct-near_example = uptime_pct-near hours (omega arith)

abbrev prev : Snapshot
prev entity = some (record { entity = "nginx"; status = up; pid = some (pos 12) })

abbrev restarted : UnitSample
restarted = record { entity = "nginx"; status = up; pid = some (pos 40) }

diff_states_iff_example :
    In (service_restart "nginx" (pos 12) (pos 40)) (diff_states prev (restarted ∷ []))
diff_states_iff_example =
    (diff_states_iff prev (restarted ∷ []) (service_restart "nginx" (pos 12) (pos 40))).1
      (restarted, here refl, (refl, (refl, refl, refl, refl, λ e. ground arith)))

diff_clients-apply_example :
    apply_clients (includes ("a" ∷ "b" ∷ [])) (diff_clients ("a" ∷ "b" ∷ []) ("b" ∷ "c" ∷ [])) "a"
    ≡ false
diff_clients-apply_example = diff_clients-apply ("a" ∷ "b" ∷ []) ("b" ∷ "c" ∷ []) "a"

abbrev credentials : Value
credentials = obj (field "user" (text "root") (field "password" (text "hunter2") end))

abbrev audit_input : AuditEntryInput
audit_input = record {
  actor = some (some "u1");
  actor_role = none;
  action = "monitor.update";
  category = "config";
  target = none;
  before = null;
  after = credentials;
  ip = none;
}

build_audit_entry-IsClean_example :
    IsClean (build_audit_entry audit_input).before × IsClean (build_audit_entry audit_input).after
build_audit_entry-IsClean_example = build_audit_entry-IsClean audit_input

abbrev windows : List TickerWindow
windows =
    record { enabled = true; starts_at = none; ends_at = none; priority = pos 1 }
    ∷ record { enabled = true; starts_at = some (some 5); ends_at = none; priority = pos 3 }
    ∷ record { enabled = false; starts_at = none; ends_at = none; priority = pos 9 }
    ∷ []

base32_decode-encode_example : base32_decode (base32_encode (72 ∷ 105 ∷ [])) ≡ some (72 ∷ 105 ∷ [])
base32_decode-encode_example = base32_decode-encode (72 ∷ 105 ∷ []) (omega arith, (omega arith, tt))

-- "MY== ====".
spaced_padding : base32_decode (77 ∷ 89 ∷ 61 ∷ 61 ∷ 32 ∷ 61 ∷ 61 ∷ 61 ∷ 61 ∷ []) ≡ none
unfolding base32_decode clean upper is_space strip_padding decode_from index_of
spaced_padding = refl
