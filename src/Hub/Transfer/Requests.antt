-- ===== src/Hub/Transfer/Requests.antt =====
-- The three messages of internal/hub/transfer.go and handlers.go that move a client.
use go_signing_server_anywhe.Prelude.{
  String, Bool, true, not, ◌&&◌, ◌||◌, none, some, [], ◌∷◌, ◌++◌, if◌then◌else◌, ℤ, ◌==◌, ◌!=◌,
  nat_eq, int_eq, string_eq,
}
use go_signing_server_anywhe.Util.{to_int64, as_non_empty_string}
use go_signing_server_anywhe.Db.Tables.{Store, AdminRow, ClientRow, TransferRow, is_disabled}
use go_signing_server_anywhe.Db.Clients.{get_client_by_id}
use go_signing_server_anywhe.Db.Transfers.{
  CreateTransferResult, created, refused, failed, create_transfer_request,
  create_transfer_request_approved, get_transfer_request, update_transfer_status,
}
use go_signing_server_anywhe.Hub.Types.Json.{Msg, str, bool, int, field}
use go_signing_server_anywhe.Hub.World.{World, Env, say, refusal, success, require_admin}
use go_signing_server_anywhe.Hub.Transfer.{
  apply_client_org_transfer, transfer_event_payload, broadcast_transfer_event, feature_on,
}

abbrev pub create_response : String
create_response = "admin-create-transfer-request-response"

abbrev pub respond_response : String
respond_response = "admin-respond-transfer-request-response"

abbrev pub update_response : String
update_response = "admin-update-client-org-response"

abbrev pub refuse_with : String → String → String → String → World → World
refuse_with sid typ code message w = say sid (refusal typ code ++ ("message", str message) ∷ []) w

-- The name of the client that a request joins; a request keeps its client's row.
unfoldable pub client_name : ℤ → Store → String
client_name id s = elim (get_client_by_id id s) [ none ↦ "" | some c ↦ c.full_name ]

unfoldable pub answer_instant :
    Env → String → AdminRow → ClientRow → ℤ → CreateTransferResult → World → World
answer_instant env sid a c to_org (created id deduped) w =
    broadcast_transfer_event
      (transfer_event_payload env w.store "transfer-updated" id c.id c.full_name c.org_id to_org
        "approved" a.admin_id a.full_name)
      (say sid
        (success create_response (
          ("requestId", int id)
          ∷ ("deduped", bool deduped)
          ∷ ("status", str "approved")
          ∷ ("instant", bool true)
          ∷ []))
        w)
answer_instant env sid a c to_org _ w = say sid (refusal create_response "SERVER_ERROR") w

-- A super admin's transfer, which is carried out and then recorded as approved.
unfoldable pub instant_transfer : Env → String → AdminRow → ClientRow → ℤ → World → World
unfolding answer_instant
instant_transfer env sid a c to_org w =
    elim (apply_client_org_transfer env c.id c.org_id to_org a.admin_id w) [
      | none ↦ refuse_with sid create_response "SERVER_ERROR" "Could not transfer client" w
      | some moved ↦
          let (res, s) =
            create_transfer_request_approved c.id c.org_id to_org a.admin_id a.admin_id env.now
              moved.store in
          answer_instant env sid a c to_org res (record moved { store = s })
    ]

unfoldable pub answer_request :
    Env → String → AdminRow → ClientRow → ℤ → CreateTransferResult → World → World
answer_request env sid a c to_org (created id deduped) w =
    broadcast_transfer_event
      (transfer_event_payload env w.store "transfer-requested" id c.id c.full_name c.org_id to_org
        "pending" a.admin_id a.full_name)
      (say sid (success create_response (("requestId", int id) ∷ ("deduped", bool deduped) ∷ [])) w)
answer_request env sid a c to_org (refused code message) w =
    refuse_with sid create_response code message w
answer_request env sid a c to_org failed w = refuse_with sid create_response "" "" w

unfoldable pub request_transfer : Env → String → AdminRow → ClientRow → ℤ → World → World
unfolding answer_request
request_transfer env sid a c to_org w =
    let (res, s) = create_transfer_request c.id c.org_id to_org a.admin_id env.now w.store in
    answer_request env sid a c to_org res (record w { store = s })

-- The checks on a client that was found, and what follows them.
unfoldable pub transfer_client : Env → String → AdminRow → ClientRow → ℤ → World → World
transfer_client env sid a c to_org w =
    if is_disabled c
    then refuse_with sid create_response "NOT_FOUND" "Client not found" w
    else if (a.role == "org_admin") && (c.org_id != a.org_id)
    then refuse_with sid create_response "FORBIDDEN" "Client not in your organization" w
    else if (a.role == "org_admin") && not (feature_on "transfer_tab" w.store)
    then refuse_with sid create_response "FORBIDDEN" "Transfer workflow is disabled for team leads"
        w
    else if c.org_id == to_org
    then refuse_with sid create_response "INVALID_INPUT" "Client is already in this team" w
    else if a.role == "super_admin"
    then instant_transfer env sid a c to_org w
    else request_transfer env sid a c to_org w

-- The body after `requireAdmin`.
unfoldable pub create_transfer : Env → String → AdminRow → Msg → World → World
unfolding transfer_client
create_transfer env sid a msg w =
    let (client_id, ok1) = to_int64 (field msg "clientId") in
    let (to_org, ok2) = to_int64 (field msg "toOrgId") in
    if a.role == "it_ops"
    then refuse_with sid create_response "FORBIDDEN" "Forbidden" w
    else if not ok1 || not ok2
    then refuse_with sid create_response "INVALID_INPUT" "clientId and toOrgId required" w
    else (elim (get_client_by_id client_id w.store) [
      | none ↦ refuse_with sid create_response "NOT_FOUND" "Client not found" w
      | some c ↦ transfer_client env sid a c to_org w
    ])

unfoldable pub handle_admin_create_transfer_request : Env → String → Msg → World → World
unfolding create_transfer
handle_admin_create_transfer_request env sid msg w =
    let (who, w') = require_admin env sid msg w in
    elim who [ none ↦ w' | some a ↦ create_transfer env sid a msg w' ]

-- What follows the checks of a response: the move if it approves, the status, the messages.
unfoldable pub settle_request : Env → String → AdminRow → TransferRow → String → World → World
settle_request env sid a t action w =
    let finish = λ (next : String) (v : World).
      (let settled = record v {
        store = update_transfer_status t.id next a.admin_id env.now v.store;
      } in
        broadcast_transfer_event
          (transfer_event_payload env settled.store "transfer-updated" t.id t.client_id
            (client_name t.client_id w.store) t.from_org_id t.to_org_id next a.admin_id a.full_name)
          (say sid (success respond_response (("requestId", int t.id) ∷ ("status", str next) ∷ []))
            settled)) in
    if action == "approve"
    then (elim (apply_client_org_transfer env t.client_id t.from_org_id t.to_org_id a.admin_id w) [
      | none ↦ refuse_with sid respond_response "SERVER_ERROR" "Could not transfer client" w
      | some moved ↦ finish "approved" moved
    ])
    else finish "rejected" w

unfoldable pub can_act : AdminRow → TransferRow → Bool
can_act a t = (a.role == "super_admin") || ((a.role == "org_admin") && (a.org_id == t.to_org_id))

unfoldable pub answer_transfer : Env → String → AdminRow → TransferRow → String → World → World
unfolding settle_request
answer_transfer env sid a t action w =
    if t.status != "pending"
    then refuse_with sid respond_response "INVALID_STATE" "Request already resolved" w
    else if not (can_act a t)
    then refuse_with sid respond_response "FORBIDDEN" "Forbidden" w
    else if (a.role == "org_admin") && not (feature_on "transfer_tab" w.store)
    then refuse_with sid respond_response "FORBIDDEN" "Transfer workflow is disabled for team leads"
        w
    else settle_request env sid a t action w

unfoldable pub respond_transfer : Env → String → AdminRow → Msg → World → World
unfolding answer_transfer
respond_transfer env sid a msg w =
    let (request_id, ok) = to_int64 (field msg "requestId") in
    let action = as_non_empty_string (field msg "action") 32 in
    if a.role == "it_ops"
    then refuse_with sid respond_response "FORBIDDEN" "Forbidden" w
    else if not ok || not ((action == "approve") || (action == "reject"))
    then refuse_with sid respond_response "INVALID_INPUT" "requestId and action required" w
    else (elim (get_transfer_request request_id w.store) [
      | none ↦ refuse_with sid respond_response "NOT_FOUND" "Request not found" w
      | some t ↦ answer_transfer env sid a t action w
    ])

unfoldable pub handle_admin_respond_transfer_request : Env → String → Msg → World → World
unfolding respond_transfer
handle_admin_respond_transfer_request env sid msg w =
    let (who, w') = require_admin env sid msg w in
    elim who [ none ↦ w' | some a ↦ respond_transfer env sid a msg w' ]

-- handleAdminUpdateClientOrg, for a client that was found
unfoldable pub update_org_of : Env → String → AdminRow → ClientRow → ℤ → World → World
update_org_of env sid a c org_id w =
    if c.org_id == org_id
    then say sid (success update_response (("message", str "Client is already in this team") ∷ []))
        w
    else (elim (apply_client_org_transfer env c.id c.org_id org_id a.admin_id w) [
      | none ↦ say sid (refusal update_response "SERVER_ERROR") w
      | some moved ↦
          say sid (success update_response (("message", str "Client transferred") ∷ [])) moved
    ])

unfoldable pub update_org : Env → String → AdminRow → Msg → World → World
unfolding update_org_of
update_org env sid a msg w =
    let (client_id, ok1) = to_int64 (field msg "clientId") in
    let (org_id, ok2) = to_int64 (field msg "orgId") in
    if a.role != "super_admin"
    then say sid (refusal update_response "FORBIDDEN") w
    else if not ok1 || not ok2
    then say sid (refusal update_response "INVALID_INPUT") w
    else (elim (get_client_by_id client_id w.store) [
      | none ↦ say sid (refusal update_response "NOT_FOUND") w
      | some c ↦ update_org_of env sid a c org_id w
    ])

-- Who is not signed in is answered twice: by `requireAdmin` and as forbidden.
unfoldable pub handle_admin_update_client_org : Env → String → Msg → World → World
unfolding update_org
handle_admin_update_client_org env sid msg w =
    let (who, w') = require_admin env sid msg w in
    elim who [
      | none ↦ say sid (refusal update_response "FORBIDDEN") w'
      | some a ↦ update_org env sid a msg w'
    ]
