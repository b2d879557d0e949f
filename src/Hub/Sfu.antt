-- ===== src/Hub/Sfu.antt =====
-- internal/hub/sfu_handlers.go, sfu_registry.go: the requests to the Cloudflare SFU and the
-- registry of publishers. The calls of the service's API are a parameter.
pub mod Publishing
use go_signing_server_anywhe.Prelude.{
  ℕ, ◌+◌, String, Bool, true, false, not, ◌&&◌, ◌||◌, Option, none, some, List, [], ◌∷◌, ◌++◌,
  if◌then◌else◌, ℤ, pos, leb_ℤ, ◌==◌, nat_eq, int_eq, string_eq,
}
use go_signing_server_anywhe.Prelude.Map.{get, put, holds}
use Prim.Native.String.{◌++◌ as str_append}
use go_signing_server_anywhe.Text.{is_empty}
use go_signing_server_anywhe.Util.{as_non_empty_string, to_int64}
use go_signing_server_anywhe.Hub.Types.{
  Hub, Conn, Conns, LinkMap, client, ClientIdentity, SfuPublisherState, send_conn, send_all,
  kind_eq,
}
use go_signing_server_anywhe.Hub.Types.Json.{Msg, Value, str, bool, int, obj, arr, field, fields}
use go_signing_server_anywhe.Hub.World.{refusal, success}
use go_signing_server_anywhe.Hub.Roster.{to_obj, to_arr}
use go_signing_server_anywhe.Hub.Links.{serves_client}
use go_signing_server_anywhe.Hub.Transport.{
  count_client_viewers_by_client_id, to_map, client_track_name, enrich_transport_plan,
}
use go_signing_server_anywhe.Ice.Plan.{Manager, TransportPlan, session_plan}
use go_signing_server_anywhe.Ice.Pool.{
  CloudflareLane, ProviderPool, RealtimeOp, run_realtime, lane_order, is_usable, lane_by_id,
  has_realtime, mark_failure,
}

-- 0 stands for no lane.
unfoldable pub lane_of : ℤ × Bool → ℕ
lane_of (n, ok) = if ok && (n == pos 1) then 1 else if ok && (n == pos 2) then 2 else 0

unfoldable pub parse_provider_lane : Msg → ℕ
unfolding lane_of
parse_provider_lane msg = lane_of (to_int64 (field msg "providerLane"))

-- The answer of the service, or the text of its error.
pub data Reply : Type 0 where
  answer : Msg → Reply
  failure : String → Reply

unfoldable pub answer_of : Reply → Option Msg
answer_of (answer out) = some out
answer_of (failure e) = none

unfoldable pub later_error : Reply → String → String
later_error (answer out) e = e
later_error (failure e) e' = e

-- The error that `RunRealtime` ends with, where no lane answers.
unfoldable pub last_error :
    (CloudflareLane → Reply × ℕ) → ℕ → List ℕ → ProviderPool → String → String
last_error op now [] p e = e
last_error op now (lane ∷ rest) p e =
    if not (is_usable p now lane)
    then last_error op now rest p e
    else (elim (lane_by_id lane p.lanes) [
      | none ↦ last_error op now rest p e
      | some l ↦
          let over = now + (op l).1 in
          if not (has_realtime l)
          then last_error op now rest p e
          else last_error op over rest (mark_failure over lane p) (later_error (op l).0 e)
    ])

unfoldable pub realtime_error : (CloudflareLane → Reply × ℕ) → ℕ → ℕ → ProviderPool → String
unfolding last_error later_error
realtime_error op now preferred p = elim p.lanes [
  | [] ↦ "no cloudflare realtime lanes configured"
  | l ∷ ls ↦ last_error op now (lane_order p preferred) p "all realtime lanes unavailable"
]

abbrev pub fallback_modes : Msg
fallback_modes = ("fallbackModes", arr (to_arr (str "turn-relay" ∷ str "p2p-preferred" ∷ []))) ∷ []

abbrev pub failed_with : String → Msg
failed_with code = ("success", bool false) ∷ ("error", str code) ∷ []

-- What RunRealtime gave, as the fields of the response; `extra` goes with a failure.
unfoldable pub op_fields : Msg → String → Option (Msg × ℕ) → Msg
op_fields extra e none = failed_with e ++ extra
op_fields extra e (some (out, lane)) =
    ("success", bool true) ∷ ("data", obj (to_obj out)) ∷ ("providerLane", int (pos lane)) ∷ []

unfoldable pub session_text : Value → String
session_text (str s) = s
session_text v = ""

unfoldable pub session_fields : String → Option (Msg × ℕ) → Msg
unfolding session_text
session_fields e none = failed_with e ++ fallback_modes
session_fields e (some (out, lane)) =
    let sid = session_text (field out "sessionId") in
    if is_empty sid
    then failed_with "missing sessionId" ++ fallback_modes
    else ("success", bool true) ∷ ("sessionId", str sid) ∷ ("providerLane", int (pos lane)) ∷ []

-- The client that a request for a publisher is about.
unfoldable pub publisher_client : Conn → ℤ × Bool → ℤ
publisher_client c (id, ok) =
    if not ok || leb_ℤ id (pos 0) then (elim c.client [ none ↦ id | some i ↦ i.id ]) else id

unfoldable pub publisher_fields : ℤ → Option SfuPublisherState → Msg
publisher_fields id none = failed_with "NO_PUBLISHER"
publisher_fields id (some p) =
    ("success", bool true)
    ∷ ("clientId", int id)
    ∷ ("publisherSessionId", str p.session_id)
    ∷ ("trackName", str p.track_name)
    ∷ ("providerLane", int p.provider_lane)
    ∷ []

-- A call as the pool makes it.
abbrev pub as_op : (CloudflareLane → Reply × ℕ) → RealtimeOp Msg
as_op request l = (answer_of (request l).0, (request l).1)

-- `call op session body` is the request of the operation on a lane, with the time that it takes.
module _ (call : String → String → Msg → CloudflareLane → Reply × ℕ) where
  -- An operation on a session: the fields of the response, and the pool that is left.
  unfoldable pub run_op :
      ℕ → ℕ → String → String → Msg → String → Value → ProviderPool → Msg × ProviderPool
  unfolding op_fields
  run_op now preferred op invalid extra sid (obj body) p =
      let request : CloudflareLane → Reply × ℕ = call op sid (fields body) in
      let (out, p') = run_realtime (as_op request) now preferred p in
      if is_empty sid
      then (failed_with invalid, p)
      else (op_fields extra (realtime_error request now preferred p) out, p')
  run_op now preferred op invalid extra sid v p = (failed_with invalid, p)

  unfoldable pub new_session : ℕ → ℕ → ProviderPool → Msg × ProviderPool
  unfolding session_fields
  new_session now preferred p =
      let request : CloudflareLane → Reply × ℕ = call "sessions-new" "" [] in
      let (out, p') = run_realtime (as_op request) now preferred p in
      (session_fields (realtime_error request now preferred p) out, p')

  -- The switch of `handleSfuAPI`.
  unfoldable pub sfu_op : ℕ → String → Conn → Msg → Hub → ProviderPool → Msg × ProviderPool
  unfolding run_op new_session publisher_client publisher_fields
  sfu_op now op c msg h p =
      let preferred = parse_provider_lane msg in
      let sid = as_non_empty_string (field msg "sessionId") 128 in
      let id = publisher_client c (to_int64 (field msg "clientId")) in
      if op == "sessions-new"
      then new_session now preferred p
      else if op == "tracks-new"
      then run_op now preferred op "INVALID_TRACKS_NEW" fallback_modes sid (field msg "body") p
      else if op == "renegotiate"
      then run_op now preferred op "INVALID_RENEGOTIATE" [] sid (field msg "body") p
      else if op == "tracks-close"
      then run_op now preferred op "INVALID_TRACKS_CLOSE" [] sid (field msg "body") p
      else if op == "publisher-info"
      then (publisher_fields id (get id h.sfu), p)
      else (failed_with (str_append "UNKNOWN_SFU_OP:" op), p)

  abbrev pub api_refusal : Msg → String → Msg
  api_refusal id code =
      ("type", str "sfu-api-response") ∷ ("success", bool false) ∷ id ++ ("error", str code) ∷ []

  unfoldable pub handle_sfu_api : ℕ → Manager → String → Conn → Msg → Hub → Manager × Hub
  unfolding sfu_op
  handle_sfu_api now m sid c msg h =
      let req_id = as_non_empty_string (field msg "requestId") 128 in
      let op = as_non_empty_string (field msg "op") 64 in
      let (resp, p) = sfu_op now op c msg h m.pool in
      if is_empty req_id
      then (m, send_conn sid (api_refusal [] "MISSING_REQUEST_ID") h)
      else if not h.cfg.enable_cloudflare_sfu
      then (m, send_conn sid (api_refusal (("requestId", str req_id) ∷ []) "SFU_DISABLED") h)
      else (
        record m { pool = p },
        send_conn sid
            (("type", str "sfu-api-response") ∷ ("requestId", str req_id) ∷ ("op", str op) ∷ resp)
            h,
      )
