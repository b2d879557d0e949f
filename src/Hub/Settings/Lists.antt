-- ===== src/Hub/Settings/Lists.antt =====
-- internal/hub/admin_security.go and handlers.go: the list of accounts whose password may be
-- reset, and the list of transfer requests.

use go_signing_server_anywhe.Prelude.{
  String, Bool, ◌||◌, Option, none, some, List, [], ◌∷◌, if◌then◌else◌, ℤ, pos, ◌==◌, nat_eq,
  int_eq, string_eq, take,
}
use go_signing_server_anywhe.Db.Tables.{Store, AdminRow, TransferRow, ClientRow, find_where}
use go_signing_server_anywhe.Db.Clients.{organization_name}
use go_signing_server_anywhe.Hub.Types.Json.{Msg, Value, str, int, obj, arr}
use go_signing_server_anywhe.Hub.World.{World, Env, say, refusal, success, require_admin}
use go_signing_server_anywhe.Hub.Roster.{to_obj, to_arr}
use go_signing_server_anywhe.Hub.Accounts.{by_super_admin}
use go_signing_server_anywhe.Hub.Settings.{as_admin}

-- The rows of ListResettableAdmins: the join drops an account without its organization.
unfoldable pub resettable_values : List (ℤ × String) → List AdminRow → List Value
resettable_values orgs [] = []
resettable_values orgs (a ∷ rest) =
    let more = resettable_values orgs rest in
    elim (organization_name a.org_id orgs) [
      | none ↦ more
      | some name ↦
          if (a.role == "org_admin") || (a.role == "super_admin")
          then obj (
              to_obj (
                ("id", int a.admin_id)
                ∷ ("orgId", int a.org_id)
                ∷ ("orgName", str name)
                ∷ ("username", str a.username)
                ∷ ("fullName", str a.full_name)
                ∷ ("role", str a.role)
                ∷ []))
            ∷ more
          else more
    ]

unfoldable pub list_resettable_admins : Store → Option (List Value)
unfolding resettable_values
list_resettable_admins s = if s.up then some (resettable_values s.organizations s.admins) else none

unfoldable pub handle_admin_list_resettable_admins : Env → String → Msg → World → World
unfolding by_super_admin
handle_admin_list_resettable_admins env sid msg w =
    let typ : String = "admin-list-resettable-admins-response" in
    by_super_admin sid (refusal typ "FORBIDDEN")
      (λ v. elim (list_resettable_admins v.store) [
        | none ↦ say sid (refusal typ "SERVER_ERROR") v
        | some list ↦ say sid (success typ (("admins", arr (to_arr list)) ∷ [])) v
      ])
      (require_admin env sid msg w)

unfoldable pub admin_name_of : ℤ → List AdminRow → Option String
admin_name_of id [] = none
admin_name_of id (a ∷ rest) = if a.admin_id == id then some a.full_name else admin_name_of id rest

unfoldable pub approved_fields : TransferRow → List AdminRow → Msg
unfolding admin_name_of
approved_fields t admins = elim t.approved_by_admin_id [
  | none ↦ []
  | some id ↦ ("approvedByAdminId", int id) ∷ (elim (admin_name_of id admins) as (λ _. Msg) [
    | none ↦ []
    | some name ↦ ("approvedByFullName", str name) ∷ []
  ])
]

-- A row of ListTransferRequests, where all that is joined exists.
unfoldable pub transfer_value : Store → TransferRow → Option Value
unfolding approved_fields
transfer_value s t = elim (find_where (λ (c : ClientRow). c.id == t.client_id) s.clients) [
  | none ↦ none
  | some c ↦ elim (organization_name t.from_org_id s.organizations) [
    | none ↦ none
    | some from ↦ elim (organization_name t.to_org_id s.organizations) [
      | none ↦ none
      | some to ↦ elim (admin_name_of t.requested_by_admin_id s.admins) [
        | none ↦ none
        | some by ↦ some (
            obj (
              to_obj (
                ("id", int t.id)
                ∷ ("clientId", int t.client_id)
                ∷ ("clientName", str c.full_name)
                ∷ ("fromOrgId", int t.from_org_id)
                ∷ ("fromOrgName", str from)
                ∷ ("toOrgId", int t.to_org_id)
                ∷ ("toOrgName", str to)
                ∷ ("requestedByAdminId", int t.requested_by_admin_id)
                ∷ ("requestedByFullName", str by)
                ∷ ("status", str t.status)
                ∷ ("createdAt", int (pos t.created_at))
                ∷ ("updatedAt", int (pos t.updated_at))
                ∷ approved_fields t s.admins)))
      ]
    ]
  ]
]

unfoldable pub sees_transfer : String → ℤ → TransferRow → Bool
sees_transfer role org_id t =
    (role == "super_admin")
    || (role == "it_ops")
    || (t.from_org_id == org_id)
    || (t.to_org_id == org_id)

-- The newest 200 rows; the rows of the table stand in the order of `ORDER BY id DESC`.
unfoldable pub transfer_values : Store → String → ℤ → List TransferRow → List Value
unfolding transfer_value sees_transfer
transfer_values s role org_id [] = []
transfer_values s role org_id (t ∷ rest) =
    let more = transfer_values s role org_id rest in
    elim (transfer_value s t) [
      | none ↦ more
      | some v ↦ if sees_transfer role org_id t then v ∷ more else more
    ]

unfoldable pub list_transfer_requests : String → ℤ → Store → List Value
unfolding transfer_values
list_transfer_requests role org_id s =
    if s.up then take 200 (transfer_values s role org_id s.transfers) else []

-- "admin-get-transfer-requests"
unfoldable pub answer_transfer_requests : Env → String → Msg → World → World
unfolding as_admin
answer_transfer_requests env sid msg w =
    as_admin
      (λ a v.
        say sid
          (success "admin-get-transfer-requests-response"
            (("requests", arr (to_arr (list_transfer_requests a.role a.org_id v.store))) ∷ []))
          v)
      (require_admin env sid msg w)
