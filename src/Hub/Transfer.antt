-- ===== src/Hub/Transfer.antt =====
-- internal/hub/transfer.go: moving a client to another team, at once or by a request.
pub mod Requests
pub mod Outcome
pub mod Authority
pub mod Creation
use go_signing_server_anywhe.Prelude.{
  ℕ, zero, suc, ◌+◌, ◌-◌, ◌*◌, ◌/◌, ◌%◌, ◌^◌, ◌≤◌, ◌<◌, String, ◌≡◌, refl, sym, ap, ◌∙◌, ◌≢◌, ◌↔◌,
  ◌⊎◌, inl, inr, Bool, true, false, not, ◌&&◌, ◌||◌, Option, none, some, List, [], ◌∷◌, ◌++◌, map,
  arith, eq_iff, ltb, leb, nat_beq, if◌then◌else◌, ltb→lt, lt→ltb, leb→le, le→leb, nat_beq_iff,
  tests, Bool-cases, Option-cases, ℤ, pos, negsuc, pos_part, neg_part, sub_ℕ, ◌+ℤ◌, ◌-ℤ◌, ◌≤ℤ◌,
  ◌<ℤ◌, ltb_ℤ, leb_ℤ, int_beq, int_beq_iff, Eq, ◌==◌, ◌!=◌, nat_eq, int_eq, string_eq, string_beq,
  string_beq_iff, beq_refl, length, take, keep, count, length-append, length-keep-le,
  length-keep-count, keep-append, has, add, remove, IsSetList, has-add, has-remove, add-IsSetList,
  remove-IsSetList, remove_absent, length-remove, length-remove-le,
}
use go_signing_server_anywhe.Prelude.Map.{
  get, put, del, get-put, get-del, holds, get-holds, holds-put, holds-del, IsMap, put-IsMap,
  del-IsMap,
}
use go_signing_server_anywhe.Util.{to_int64, as_non_empty_string, itoa}
use go_signing_server_anywhe.Db.Tables.{Store, AdminRow, ClientRow, TransferRow, is_disabled}
use go_signing_server_anywhe.Db.Clients.{get_client_by_id, organization_name}
use go_signing_server_anywhe.Db.Transfers.{
  move_client, CreateTransferResult, created, refused, failed, create_transfer_request,
  create_transfer_request_approved, get_transfer_request, update_transfer_status,
}
use go_signing_server_anywhe.Hub.Types.{
  Hub, Conn, Conns, ConnKind, admin, ClientIdentity, AdminIdentity, kind_eq, send_conn,
}
use go_signing_server_anywhe.Hub.Types.Json.{Msg, Value, null, str, bool, int, obj, field}
use go_signing_server_anywhe.Hub.World.{World, Env, say, refusal, success, require_admin}
use go_signing_server_anywhe.Hub.Roster.{broadcast_clients, to_obj}

unfoldable pub in_org : ℤ → ℤ → Conn → Conn
in_org client_id org_id c = elim c.client [
  | none ↦ c
  | some who ↦
      if who.id == client_id then record c { client = some (record who { org_id = org_id }) } else c
]

unfoldable pub set_client_org_in_memory : ℤ → ℤ → Conns → Conns
unfolding in_org
set_client_org_in_memory client_id org_id [] = []
set_client_org_in_memory client_id org_id ((sid, c) ∷ rest) =
    (sid, in_org client_id org_id c) ∷ set_client_org_in_memory client_id org_id rest

-- applyClientOrgTransfer; `none` is an error, and nothing has changed then.
unfoldable pub apply_client_org_transfer : Env → ℤ → ℤ → ℤ → ℤ → World → Option World
unfolding set_client_org_in_memory
apply_client_org_transfer env client_id from_org to_org by w =
    elim (move_client client_id to_org by env.now w.store) [
      | none ↦ none
      | some s ↦
          let moved : World = record {
            hub = record w.hub { conns = set_client_org_in_memory client_id to_org w.hub.conns };
            store = s;
          } in
          let told =
            if ltb_ℤ (pos 0) from_org && (from_org != to_org)
            then broadcast_clients env from_org moved
            else moved in
          some (broadcast_clients env to_org told)
    ]

abbrev pub org_n : ℤ → String
org_n id = String.◌∷◌ "O" (String.◌∷◌ "r" (String.◌∷◌ "g" (String.◌∷◌ " " (itoa id))))

-- The two names, "" where the query fails, stand for themselves or for "Org n".
unfoldable pub org_label : ℤ → Store → String
org_label id s = elim (if s.up then organization_name id s.organizations else none) [
  | none ↦ org_n id
  | some name ↦ if name == "" then org_n id else name
]

unfoldable pub transfer_event_payload :
    Env → Store → String → ℤ → ℤ → String → ℤ → ℤ → String → ℤ → String → Msg
unfolding org_label
transfer_event_payload env s kind request_id client_id client_name from_org to_org status by name =
    let ev =
      ("kind", str kind)
      ∷ ("requestId", int request_id)
      ∷ ("clientId", int client_id)
      ∷ ("clientName", str client_name)
      ∷ ("fromOrgId", int from_org)
      ∷ ("fromOrgName", str (org_label from_org s))
      ∷ ("toOrgId", int to_org)
      ∷ ("toOrgName", str (org_label to_org s))
      ∷ ("status", str status)
      ∷ ("at", int (pos env.now))
      ∷ [] in
    if ltb_ℤ (pos 0) by then ev ++ ("byAdminId", int by) ∷ ("byAdminName", str name) ∷ [] else ev

-- Who is told of a transfer between two organizations.
unfoldable pub is_interested : ℤ → ℤ → Conn → Bool
is_interested from_org to_org c =
    if kind_eq c.kind admin
    then (elim c.admin [
      | none ↦ false
      | some a ↦
          (a.role == "super_admin")
          || (a.role == "it_ops")
          || ((a.org_id == from_org) || (a.org_id == to_org))
    ])
    else false

unfoldable pub tell_interested : ℤ → ℤ → Msg → Conns → Hub → Hub
unfolding is_interested
tell_interested from_org to_org event [] h = h
tell_interested from_org to_org event ((sid, c) ∷ rest) h =
    tell_interested from_org to_org event rest (
      if is_interested from_org to_org c
      then send_conn sid (success "transfer-event" (("event", obj (to_obj event)) ∷ [])) h
      else h)

unfoldable pub broadcast_transfer_event : Msg → World → World
unfolding tell_interested
broadcast_transfer_event event w =
    let (from_org, _) = to_int64 (field event "fromOrgId") in
    let (to_org, _) = to_int64 (field event "toOrgId") in
    record w { hub = tell_interested from_org to_org event w.hub.conns w.hub }

-- on, _ := features[key].(bool); a query that fails gives a nil map
unfoldable pub feature_on : String → Store → Bool
feature_on key s = elim (if s.up then field s.ui_features key else null) [ bool b ↦ b | _ ↦ false ]
