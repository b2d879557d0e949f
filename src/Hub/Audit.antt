-- ===== src/Hub/Audit.antt =====
-- The messages that super admins have answered by the audit service (internal/hub/handlers.go,
-- handlers_audit_remote.go).
use go_signing_server_anywhe.Prelude.{
  String, Bool, true, false, Option, none, some, [], ◌∷◌, ◌++◌, ltb, if◌then◌else◌, pos, nat_eq,
  int_eq, string_eq,
}
use go_signing_server_anywhe.Prelude.Map.{del}
use Prim.Native.String.{◌++◌ as str_append}
use go_signing_server_anywhe.Text.{is_empty}
use go_signing_server_anywhe.Util.{as_non_empty_string, sprint_int}
use go_signing_server_anywhe.Auditproxy.{AuditEnv, Exchange, Fetched, fetch_json}
use go_signing_server_anywhe.Hub.Types.Json.{Msg, Value, null, str, bool, arr, field}
use go_signing_server_anywhe.Hub.World.{World, Env, say, require_admin}
use go_signing_server_anywhe.Hub.Relay.{put_all}
use go_signing_server_anywhe.Hub.Accounts.{by_super_admin}

-- auditMutateBodyFromMsg
unfoldable pub audit_mutate_body_from_msg : Msg → Msg
audit_mutate_body_from_msg msg =
    del "workstationIps" (del "ipcCorrId" (del "token" (del "type" msg)))

unfoldable pub error_text : Option Msg → String
error_text none = ""
error_text (some got) = elim (field got "error") as (λ _. String) [ str e ↦ e | _ ↦ "" ]

unfoldable pub audit_proxy_fail_payload : Fetched → String × String
unfolding error_text
audit_proxy_fail_payload f =
    let e = error_text f.body in
    let other : String × String =
      if ltb 0 f.status
      then ("AUDIT_HTTP_ERROR", str_append "audit API HTTP " (sprint_int (pos f.status)))
      else ("REQUEST_FAILED", "Request failed") in
    if is_empty e
    then (elim f.err [ none ↦ other | some text ↦ ("AUDIT_REQUEST_FAILED", text) ])
    else (e, e)

abbrev pub failed_as : String → Msg → String → Msg
failed_as typ rest ipc =
    ("type", str typ) ∷ ("success", bool false) ∷ rest ++ ("ipcCorrId", str ipc) ∷ []

abbrev pub succeeded_as : String → Msg → String → Msg
succeeded_as typ rest ipc =
    ("type", str typ) ∷ ("success", bool true) ∷ rest ++ ("ipcCorrId", str ipc) ∷ []

abbrev pub error_field : String → Msg
error_field code = ("error", str code) ∷ []

unfoldable pub answer_with : Fetched → (Msg → Msg) → Msg → Msg
answer_with f good bad = elim f.err [
  | some text ↦ bad
  | none ↦ if f.ok then (elim f.body [ none ↦ good [] | some got ↦ good got ]) else bad
]

-- A slice, nil where the field is none.
unfoldable pub slice_of : Value → Value
slice_of (arr vs) = arr vs
slice_of v = null

-- `got["success"] != false`
unfoldable pub is_not_false : Value → Bool
is_not_false (bool b) = b
is_not_false v = true

module _ (audit : AuditEnv) (exchange : String → String → String → Option Msg → Exchange) where
  -- A handler: who may use it, whether the service is configured, and the answer.
  unfoldable pub audit_handler : Env → String → String → Msg → Msg → (String → Msg) → World → World
  audit_handler env typ sid msg forbidden respond w =
      let ipc = as_non_empty_string (field msg "ipcCorrId") 64 in
      by_super_admin sid (failed_as typ forbidden ipc)
        (λ v.
          if audit.configured
          then say sid (respond ipc) v
          else say sid (failed_as typ (error_field "AUDIT_PROXY_NOT_CONFIGURED") ipc) v)
        (require_admin env sid msg w)

  unfoldable pub audit_proxy_list : Env → String → Msg → World → World
  unfolding audit_handler answer_with slice_of
  audit_proxy_list env sid msg w =
      let typ : String = "admin-audit-org-access-list-response" in
      let st = as_non_empty_string (field msg "status") 32 in
      let q : String = if is_empty st then "" else str_append "?status=" st in
      let f =
        fetch_json exchange audit (str_append "/api/superadmin/audit-org-access" q) "GET" none in
      audit_handler env typ sid msg (error_field "FORBIDDEN")
        (λ ipc.
          answer_with f
            (λ got.
              succeeded_as typ
                (("requests", slice_of (field got "requests"))
                  ∷ ("pendingCount", field got "pendingCount")
                  ∷ [])
                ipc)
            (failed_as typ (error_field "AUDIT_PROXY_FETCH_FAILED") ipc))
        w

  unfoldable pub audit_proxy_review : Env → String → Msg → World → World
  unfolding audit_handler answer_with is_not_false
  audit_proxy_review env sid msg w =
      let typ : String = "admin-audit-org-access-review-response" in
      let body : Msg =
        ("id", field msg "id")
        ∷ ("action", field msg "action")
        ∷ ("reviewerUsername", field msg "reviewerUsername")
        ∷ [] in
      let f = fetch_json exchange audit "/api/superadmin/audit-org-access" "POST" (some body) in
      audit_handler env typ sid msg []
        (λ ipc.
          answer_with f
            (λ got.
              ("type", str typ)
              ∷ ("success", bool (is_not_false (field got "success")))
              ∷ ("status", field got "status")
              ∷ ("ipcCorrId", str ipc)
              ∷ [])
            (failed_as typ [] ipc))
        w

  unfoldable pub audit_proxy_groups_get : Env → String → Msg → World → World
  unfolding audit_handler answer_with
  audit_proxy_groups_get env sid msg w =
      let typ : String = "admin-audit-groups-get-response" in
      let f = fetch_json exchange audit "/api/superadmin/audit-groups" "GET" none in
      audit_handler env typ sid msg []
        (λ ipc.
          answer_with f
            (λ got.
              succeeded_as typ
                (("groups", field got "groups") ∷ ("teamLeads", field got "teamLeads") ∷ []) ipc)
            (failed_as typ [] ipc))
        w

  unfoldable pub audit_proxy_groups_mutate : Env → String → Msg → World → World
  unfolding audit_handler answer_with audit_mutate_body_from_msg audit_proxy_fail_payload
  audit_proxy_groups_mutate env sid msg w =
      let typ : String = "admin-audit-groups-mutate-response" in
      let f =
        fetch_json exchange audit "/api/superadmin/audit-groups" "POST"
          (some (audit_mutate_body_from_msg msg)) in
      let (code, message) = audit_proxy_fail_payload f in
      audit_handler env typ sid msg []
        (λ ipc.
          answer_with f (λ got. put_all got (succeeded_as typ [] ipc))
            (failed_as typ (("error", str code) ∷ ("message", str message) ∷ []) ipc))
        w
