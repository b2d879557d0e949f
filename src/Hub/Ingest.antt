-- ===== src/Hub/Ingest.antt =====
-- internal/hub/http_ingest.go: call events and taskbar events over HTTP. `io.LimitReader` cuts a
-- body at the limit and never fails, so the body is what encoding/json makes of its first bytes.
pub mod Authorized
use go_signing_server_anywhe.Prelude.{
  ℕ, zero, suc, ◌+◌, ◌-◌, ◌*◌, ◌/◌, ◌%◌, ◌^◌, ◌≤◌, ◌<◌, String, ◌≡◌, refl, sym, ap, ◌∙◌, ◌≢◌, ◌↔◌,
  ◌⊎◌, inl, inr, Bool, true, false, not, ◌&&◌, ◌||◌, Option, none, some, List, [], ◌∷◌, ◌++◌, map,
  arith, eq_iff, ltb, leb, nat_beq, if◌then◌else◌, ltb→lt, lt→ltb, leb→le, le→leb, nat_beq_iff,
  tests, Bool-cases, Option-cases, ℤ, pos, negsuc, pos_part, neg_part, sub_ℕ, ◌+ℤ◌, ◌-ℤ◌, ◌≤ℤ◌,
  ◌<ℤ◌, ltb_ℤ, leb_ℤ, int_beq, int_beq_iff, Eq, ◌==◌, ◌!=◌, nat_eq, int_eq, string_eq, string_beq,
  string_beq_iff, beq_refl, length, take, keep, count, length-append, length-keep-le,
  length-keep-count, keep-append, has, add, remove, IsSetList, has-add, has-remove, add-IsSetList,
  remove-IsSetList, remove_absent, length-remove, length-remove-le,
}
use go_signing_server_anywhe.Prelude.Map.{
  get, put, del, get-put, get-del, holds, get-holds, holds-put, holds-del, IsMap, put-IsMap,
  del-IsMap,
}
use go_signing_server_anywhe.Text.{is_empty, trim_space}
use go_signing_server_anywhe.Text.Case.{trim_prefix}
use go_signing_server_anywhe.Text.Bytes.{bytes}
use go_signing_server_anywhe.Util.{as_non_empty_string, to_int64}
use go_signing_server_anywhe.Auth.Ingest.{
  IngestPayload, TokenVerdict, accepted, denied, verify_ingest_token,
}
use go_signing_server_anywhe.Db.Tables.{Store, ClientRow}
use go_signing_server_anywhe.Db.Clients.{get_client_by_id}
use go_signing_server_anywhe.Db.SignIn.{get_client_id_by_device_id, insert_call_event}
use go_signing_server_anywhe.Hub.Types.{
  Hub, Config, Conn, Conns, admin, AdminIdentity, send_conn, kind_eq,
}
use go_signing_server_anywhe.Hub.Types.Json.{
  Msg, Value, null, str, bool, int, obj, arr, nil, field, fields, items,
}
use go_signing_server_anywhe.Hub.World.{World, Env}
use go_signing_server_anywhe.Hub.Roster.{to_obj}

pub record Response : Type 0 where
  pub code : ℕ
  pub body : Msg

unfoldable pub fail : ℕ → String → Response
fail code e = record { code = code; body = ("error", str e) ∷ [] }

-- A request of the two paths: `parsed` is the decoded body, `none` where it is no object. For call
-- events `null` reads as the object without fields, for taskbar events as none.
pub data HttpRequest : Type 0 where
  post_request : String → Option Msg → HttpRequest
  get_request : HttpRequest
  other_request : HttpRequest

-- Who the events are from, or the answer that refuses them.
pub data Sender : Type 0 where
  sender : ℤ → Sender
  turned_away : Response → Sender

unfoldable pub token_sender : IngestPayload → Option ClientRow → Sender
unfolding fail
token_sender p none = turned_away (fail 403 "FORBIDDEN")
token_sender p (some c) =
    if (c.disabled == pos 1) || (c.org_id != p.org_id)
    then turned_away (fail 403 "FORBIDDEN")
    else sender p.client_id

unfoldable pub device_sender : Msg → Store → Sender
unfolding fail
device_sender payload s =
    let dev = as_non_empty_string (field payload "deviceId") 200 in
    let id = get_client_id_by_device_id dev s in
    if is_empty dev
    then turned_away (fail 401 "UNAUTHORIZED")
    else if id == pos 0
    then turned_away (fail 403 "FORBIDDEN")
    else sender id

unfoldable pub sender_of : Config → TokenVerdict → Msg → Store → Sender
unfolding token_sender device_sender
sender_of cfg (accepted p) payload s = token_sender p (get_client_by_id p.client_id s)
sender_of cfg (denied e) payload s =
    if cfg.allow_call_no_token
    then device_sender payload s
    else turned_away (fail 401 "UNAUTHORIZED")

-- `dur`: the duration where there is a number.
unfoldable pub duration_of : Value → Option ℤ
duration_of null = none
duration_of v = let (n, ok) = to_int64 v in if ok then some n else none

unfoldable pub event_fields : Value → Msg
event_fields (obj ev) = fields ev
event_fields v = []

-- The loop over the events: those before the first that is not valid are stored.
unfoldable pub insert_events : ℤ → ℕ → List Value → ℕ → Store → Response × Store
unfolding duration_of event_fields fail
insert_events client_id now [] n s =
    (record { code = 200; body = ("ok", bool true) ∷ ("accepted", int (pos n)) ∷ [] }, s)
insert_events client_id now (e ∷ es) n s =
    let ev = event_fields e in
    let typ = as_non_empty_string (field ev "type") 32 in
    let platform = as_non_empty_string (field ev "platform") 120 in
    let ts = as_non_empty_string (field ev "timestamp") 80 in
    let rest =
      insert_events client_id now es n (
        insert_call_event client_id typ platform ts (duration_of (field ev "duration_ms")) now s) in
    if is_empty typ || is_empty platform || is_empty ts
    then (fail 400 "VALIDATION_ERROR", s)
    else rest

unfoldable pub event_list : Value → List Value
event_list (arr vs) = items vs
event_list v = []

unfoldable pub take_events : ℤ → ℕ → List Value → Store → Response × Store
unfolding insert_events
take_events client_id now [] s = (fail 400 "INVALID_INPUT", s)
take_events client_id now (e ∷ es) s = insert_events client_id now (e ∷ es) (length (e ∷ es)) s

unfoldable pub events_from : Sender → ℕ → Msg → Store → Response × Store
unfolding take_events event_list
events_from (turned_away r) now payload s = (r, s)
events_from (sender id) now payload s = take_events id now (event_list (field payload "events")) s

-- The token of the header.
unfoldable pub bearer : String → String
bearer header = trim_space (trim_prefix header "Bearer ")

unfoldable pub post_call_events : Env → Config → String → Option Msg → Store → Response × Store
unfolding events_from sender_of bearer
post_call_events env cfg header none s = (fail 400 "INVALID_JSON", s)
post_call_events env cfg header (some payload) s =
    events_from
      (sender_of cfg
        (verify_ingest_token env.mac env.unmarshal (pos env.now) (bytes cfg.ingest_token_secret)
          (bytes (bearer header)))
        payload s)
      env.now payload s

abbrev pub no_events : Msg
no_events =
    ("success", bool true)
    ∷ ("events", arr nil)
    ∷ ("page", int (pos 1))
    ∷ ("limit", int (pos 0))
    ∷ ("hasMore", bool false)
    ∷ []

unfoldable pub http_call_events : Env → Config → HttpRequest → Store → Response × Store
unfolding post_call_events
http_call_events env cfg (post_request header parsed) s = post_call_events env cfg header parsed s
http_call_events env cfg get_request s = (record { code = 200; body = no_events }, s)
http_call_events env cfg other_request s = (fail 405 "METHOD_NOT_ALLOWED", s)

unfoldable pub is_signed_in_admin : Conn → Bool
is_signed_in_admin c = kind_eq c.kind admin && (elim c.admin [ none ↦ false | some a ↦ true ])

unfoldable pub tell_admins : Msg → Conns → Hub → Hub
unfolding is_signed_in_admin
tell_admins m [] h = h
tell_admins m ((sid, c) ∷ rest) h =
    tell_admins m rest (if is_signed_in_admin c then send_conn sid m h else h)

-- The payload that is no object is a nil map.
unfoldable pub payload_value : Option Msg → Value
payload_value none = null
payload_value (some m) = obj (to_obj m)

unfoldable pub payload_fields : Option Msg → Msg
payload_fields none = []
payload_fields (some m) = m

unfoldable pub broadcast_taskbar_to_admins : Option Msg → Hub → Hub
unfolding tell_admins payload_value payload_fields
broadcast_taskbar_to_admins payload h =
    let client_id = (to_int64 (field (payload_fields payload) "clientId")).0 in
    tell_admins
      (("type", str "taskbar-events-update")
        ∷ ("clientId", int client_id)
        ∷ ("payload", payload_value payload)
        ∷ [])
      h.conns h

abbrev pub telemetry_off : Response
telemetry_off = record {
  code = 200;
  body = ("success", bool true) ∷ ("events", arr nil) ∷ ("disabled", bool true) ∷ [];
}

abbrev pub broadcasted : Response
broadcasted = record {
  code = 200;
  body = ("ok", bool true) ∷ ("accepted", int (pos 1)) ∷ ("persisted", bool false) ∷ [];
}

unfoldable pub taskbar_events : HttpRequest → Hub → Response × Hub
unfolding broadcast_taskbar_to_admins
taskbar_events (post_request header parsed) h = (broadcasted, broadcast_taskbar_to_admins parsed h)
taskbar_events get_request h = (record { code = 200; body = no_events }, h)
taskbar_events other_request h = (fail 405 "METHOD_NOT_ALLOWED", h)

unfoldable pub http_taskbar_events : HttpRequest → Hub → Response × Hub
unfolding taskbar_events
http_taskbar_events r h =
    if h.cfg.enable_taskbar_telemetry then taskbar_events r h else (telemetry_off, h)
