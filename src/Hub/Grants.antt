-- ===== src/Hub/Grants.antt =====
-- The messages on remote access and stream relay grants (internal/hub/handlers_audit_remote.go).
-- Every answer carries the correlation id of its message.
pub mod Approval
use go_signing_server_anywhe.Prelude.{
  ℕ, zero, suc, ◌+◌, ◌-◌, ◌*◌, ◌/◌, ◌%◌, ◌^◌, ◌≤◌, ◌<◌, String, ◌≡◌, refl, sym, ap, ◌∙◌, ◌≢◌, ◌↔◌,
  ◌⊎◌, inl, inr, Bool, true, false, not, ◌&&◌, ◌||◌, Option, none, some, List, [], ◌∷◌, ◌++◌, map,
  arith, eq_iff, ltb, leb, nat_beq, if◌then◌else◌, ltb→lt, lt→ltb, leb→le, le→leb, nat_beq_iff,
  tests, Bool-cases, Option-cases, ℤ, pos, negsuc, pos_part, neg_part, sub_ℕ, ◌+ℤ◌, ◌-ℤ◌, ◌≤ℤ◌,
  ◌<ℤ◌, ltb_ℤ, leb_ℤ, int_beq, int_beq_iff, Eq, ◌==◌, ◌!=◌, nat_eq, int_eq, string_eq, string_beq,
  string_beq_iff, beq_refl, length, take, keep, count, length-append, length-keep-le,
  length-keep-count, keep-append, has, add, remove, IsSetList, has-add, has-remove, add-IsSetList,
  remove-IsSetList, remove_absent, length-remove, length-remove-le,
}
use go_signing_server_anywhe.Prelude.Map.{
  get, put, del, get-put, get-del, holds, get-holds, holds-put, holds-del, IsMap, put-IsMap,
  del-IsMap,
}
use go_signing_server_anywhe.Util.{to_int64, as_non_empty_string}
use go_signing_server_anywhe.Db.Tables.{Store, AdminRow, GrantRow}
use go_signing_server_anywhe.Db.Grants.{
  new_request, approve, deny, get_active, get_my_requests, get_all_pending,
}
use go_signing_server_anywhe.Hub.Types.{Hub}
use go_signing_server_anywhe.Hub.Types.Json.{Msg, Value, null, str, bool, int, arr, obj, field}
use go_signing_server_anywhe.Hub.World.{World, Env, say, require_admin}
use go_signing_server_anywhe.Hub.Roster.{to_obj, to_arr, is_scoped_role}

-- The row as the driver's map; only its columns that the model keeps.
unfoldable pub grant_value : GrantRow → Value
grant_value g = obj (
    to_obj (
      ("id", int g.id)
      ∷ ("admin_id", int g.admin_id)
      ∷ ("org_id", int g.org_id)
      ∷ ("requester_ip", str g.requester_ip)
      ∷ ("reason", str g.reason)
      ∷ ("duration_hours", int g.duration_hours)
      ∷ ("status", str g.status)
      ∷ []))

unfoldable pub ip_of : String → Hub → String
ip_of sid h = elim (get sid h.conns) [ none ↦ "" | some c ↦ c.ip ]

abbrev pub tell : String → String → Msg → Msg → World → World
tell sid typ rest msg w =
    say sid
      ((("type", str typ) ∷ rest)
        ++ ("ipcCorrId", str (as_non_empty_string (field msg "ipcCorrId") 64)) ∷ [])
      w

abbrev pub refuse_request : String → String → String → Msg → World → World
refuse_request sid typ reason msg w =
    tell sid typ (("success", bool false) ∷ ("reason", str reason) ∷ []) msg w

-- The hours that are asked for, four by default.
unfoldable pub asked_hours : Msg → ℤ
asked_hours msg = let (n, ok) = to_int64 (field msg "durationHours") in if ok then n else pos 4

unfoldable pub clamp_hours : ℤ → ℤ
clamp_hours n = if ltb_ℤ n (pos 1) then pos 1 else if ltb_ℤ (pos 72) n then pos 72 else n

unfoldable pub active_grant : Env → AdminRow → List GrantRow → Store → Option GrantRow
active_grant env a rows s = if s.up then get_active a.admin_id env.now rows else none

unfoldable pub reason_of : Msg → String
reason_of msg = as_non_empty_string (field msg "reason") 500

-- "remote-access-request"
unfoldable pub request_remote_access : Env → String → AdminRow → Msg → World → World
unfolding active_grant asked_hours clamp_hours ip_of reason_of
request_remote_access env sid a msg w =
    let typ : String = "remote-access-request-response" in
    if a.role == "super_admin"
    then refuse_request sid typ "NOT_APPLICABLE" msg w
    else (elim (active_grant env a w.store.remote_access w.store) [
      | some _ ↦ refuse_request sid typ "ALREADY_ACTIVE" msg w
      | none ↦
          if w.store.up
          then tell sid typ (("success", bool true) ∷ ("requestId", int (pos w.store.next_id)) ∷ [])
              msg
              (record w {
                store = record w.store {
                  next_id = suc w.store.next_id;
                  remote_access =
                      new_request w.store.next_id a.admin_id a.org_id (ip_of sid w.hub)
                        (reason_of msg) (clamp_hours (asked_hours msg))
                      ∷ w.store.remote_access;
                };
              })
          else tell sid typ (("success", bool true) ∷ ("requestId", null) ∷ []) msg w
    ])

-- "stream-relay-request", whose hours are taken as they are
unfoldable pub request_stream_relay : Env → String → AdminRow → Msg → World → World
unfolding active_grant asked_hours ip_of reason_of
request_stream_relay env sid a msg w =
    let typ : String = "stream-relay-request-response" in
    if a.role != "org_admin"
    then refuse_request sid typ "NOT_APPLICABLE" msg w
    else (elim (active_grant env a w.store.stream_relay w.store) [
      | some _ ↦ refuse_request sid typ "ALREADY_ACTIVE" msg w
      | none ↦
          if w.store.up
          then tell sid typ (("success", bool true) ∷ ("requestId", int (pos w.store.next_id)) ∷ [])
              msg
              (record w {
                store = record w.store {
                  next_id = suc w.store.next_id;
                  stream_relay =
                      new_request w.store.next_id a.admin_id a.org_id (ip_of sid w.hub)
                        (reason_of msg) (asked_hours msg)
                      ∷ w.store.stream_relay;
                };
              })
          else tell sid typ (("success", bool true) ∷ ("requestId", null) ∷ []) msg w
    ])

-- A statement on rows that runs while the database is up.
unfoldable pub approved_rows : Env → AdminRow → Msg → Bool → List GrantRow → List GrantRow × Bool
approved_rows env a msg up rows =
    let (id, _) = to_int64 (field msg "requestId") in
    if up then approve id a.admin_id env.now rows else (rows, false)

unfoldable pub denied_rows : AdminRow → Msg → Bool → List GrantRow → List GrantRow
denied_rows a msg up rows =
    let (id, _) = to_int64 (field msg "requestId") in if up then deny id a.admin_id rows else rows

unfoldable pub active_value : Option GrantRow → Value
active_value none = null
active_value (some g) = grant_value g

abbrev pub listed : Bool → List GrantRow → Value
listed up rows = if up then arr (to_arr (map grant_value rows)) else null

-- handleRemoteAccess, after `requireAdmin`; another type does nothing.
unfoldable pub remote_access : Env → String → String → AdminRow → Msg → World → World
unfolding request_remote_access approved_rows denied_rows grant_value
remote_access env sid typ a msg w =
    let (rows, updated) = approved_rows env a msg w.store.up w.store.remote_access in
    let is_super = a.role == "super_admin" in
    if typ == "remote-access-request"
    then request_remote_access env sid a msg w
    else if (typ == "approve-remote-access") && is_super
    then tell sid "approve-remote-access-response" (("success", bool updated) ∷ []) msg
        (record w { store = record w.store { remote_access = rows } })
    else if (typ == "deny-remote-access") && is_super
    then tell sid "deny-remote-access-response" (("success", bool true) ∷ []) msg (record w {
      store = record w.store { remote_access = denied_rows a msg w.store.up w.store.remote_access };
    })
    else if typ == "get-my-remote-access-requests"
    then tell sid "my-remote-access-requests"
        (("requests", listed w.store.up (get_my_requests a.admin_id w.store.remote_access)) ∷ [])
        msg w
    else if (typ == "get-pending-remote-access-requests") && is_super
    then tell sid "pending-remote-access-requests"
        (("requests", listed w.store.up (get_all_pending w.store.remote_access)) ∷ []) msg w
    else w

unfoldable pub handle_remote_access : Env → String → String → Msg → World → World
unfolding remote_access
handle_remote_access env sid typ msg w =
    let (who, w') = require_admin env sid msg w in
    elim who [ none ↦ w' | some a ↦ remote_access env sid typ a msg w' ]

-- handleStreamRelay, after `requireAdmin`
unfoldable pub stream_relay : Env → String → String → AdminRow → Msg → World → World
unfolding request_stream_relay approved_rows denied_rows grant_value active_value
stream_relay env sid typ a msg w =
    let (rows, updated) = approved_rows env a msg w.store.up w.store.stream_relay in
    let is_super = a.role == "super_admin" in
    if typ == "stream-relay-request"
    then request_stream_relay env sid a msg w
    else if (typ == "approve-stream-relay") && is_super
    then tell sid "approve-stream-relay-response" (("success", bool updated) ∷ []) msg
        (record w { store = record w.store { stream_relay = rows } })
    else if (typ == "deny-stream-relay") && is_super
    then tell sid "deny-stream-relay-response" (("success", bool true) ∷ []) msg (record w {
      store = record w.store { stream_relay = denied_rows a msg w.store.up w.store.stream_relay };
    })
    else if typ == "get-my-stream-relay-requests"
    then tell sid "my-stream-relay-requests"
        (("requests", listed w.store.up (get_my_requests a.admin_id w.store.stream_relay)) ∷ []) msg
        w
    else if (typ == "get-pending-stream-relay-requests") && is_super
    then tell sid "pending-stream-relay-requests"
        (("requests", listed w.store.up (get_all_pending w.store.stream_relay)) ∷ []) msg w
    else if typ == "get-active-stream-relay"
    then tell sid "active-stream-relay"
        ((
          "active",
          active_value (
              if is_scoped_role a.role
              then active_grant env a w.store.stream_relay w.store
              else none),
        )
          ∷ [])
        msg w
    else w

unfoldable pub handle_stream_relay : Env → String → String → Msg → World → World
unfolding stream_relay
handle_stream_relay env sid typ msg w =
    let (who, w') = require_admin env sid msg w in
    elim who [ none ↦ w' | some a ↦ stream_relay env sid typ a msg w' ]
