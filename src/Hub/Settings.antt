-- ===== src/Hub/Settings.antt =====
-- What administrators read and change besides clients: the leads, the features of the interface,
-- the hours of viewing (internal/hub/handlers.go, admin_security.go).
pub mod Lists
pub mod Window
use go_signing_server_anywhe.Prelude.{
  String, Bool, false, ◌||◌, Option, none, some, List, [], ◌∷◌, map, if◌then◌else◌, ℤ, pos, ◌==◌,
  nat_eq, int_eq, string_eq, take,
}
use go_signing_server_anywhe.Text.{is_empty}
use go_signing_server_anywhe.Util.{as_non_empty_string, int64_of}
use go_signing_server_anywhe.StreamWindow.{Policy}
use go_signing_server_anywhe.Db.Tables.{Store, AdminRow, TransferRow, ClientRow, find_where}
use go_signing_server_anywhe.Db.Clients.{organization_name}
use go_signing_server_anywhe.Db.Organizations.{
  Org, get_organizations, get_organizations_with_admins, get_admin_ui_features,
  set_admin_ui_features_patch, get_org_leads, set_org_admin_stream_window,
}
use go_signing_server_anywhe.Hub.Types.Json.{
  Msg, Value, str, bool, int, float, obj, arr, field, fields,
}
use go_signing_server_anywhe.Hub.World.{World, Env, say, refusal, success, require_admin}
use go_signing_server_anywhe.Hub.Roster.{to_obj, to_arr}
use go_signing_server_anywhe.Hub.Connect.{get_org_admin_stream_window}
use go_signing_server_anywhe.Hub.SignIn.{stream_window_payload, is_allowed}
use go_signing_server_anywhe.Hub.Accounts.{by_super_admin, features_value}

-- The handlers that every administrator may use: requireAdmin has answered the others.
unfoldable pub as_admin : (AdminRow → World → World) → Option AdminRow × World → World
as_admin act (none, w) = w
as_admin act (some a, w) = act a w

unfoldable pub org_value : Org → Value
org_value o = obj (to_obj (("id", int o.0) ∷ ("name", str o.1) ∷ []))

-- "admin-get-orgs" and "admin-get-org-summaries"
unfoldable pub answer_orgs : Env → String → String → Msg → World → World
unfolding as_admin org_value
answer_orgs env typ sid msg w =
    as_admin
      (λ a v.
        say sid
          (success typ
            (("orgs", arr (to_arr (map org_value (get_organizations env.by_name v.store)))) ∷ []))
          v)
      (require_admin env sid msg w)

-- "public-list-orgs"
unfoldable pub public_list_orgs : Env → String → World → World
unfolding org_value
public_list_orgs env sid w =
    say sid
      (success "public-list-orgs-response" (
        ("orgs", arr (to_arr (map org_value (get_organizations_with_admins env.by_name w.store))))
        ∷ []))
      w

unfoldable pub lead_value : AdminRow → Value
lead_value a = obj (
    to_obj (
      ("id", int a.admin_id)
      ∷ ("orgId", int a.org_id)
      ∷ ("username", str a.username)
      ∷ ("fullName", str a.full_name)
      ∷ ("role", str a.role)
      ∷ []))

unfoldable pub handle_admin_get_org_leads : Env → String → Msg → World → World
unfolding as_admin lead_value
handle_admin_get_org_leads env sid msg w =
    let ipc = as_non_empty_string (field msg "ipcCorrId") 64 in
    let corr : Msg = if is_empty ipc then [] else ("ipcCorrId", str ipc) ∷ [] in
    as_admin
      (λ a v.
        let org_id : Option ℤ = if a.role == "org_admin" then some a.org_id else none in
        say sid
          (success "admin-get-org-leads-response"
            (("leads", arr (to_arr (map lead_value (get_org_leads org_id v.store)))) ∷ corr))
          v)
      (require_admin env sid msg w)

unfoldable pub handle_admin_get_ui_features : Env → String → Msg → World → World
unfolding as_admin
handle_admin_get_ui_features env sid msg w =
    as_admin
      (λ a v.
        say sid
          (success "admin-get-ui-features-response"
            (("adminUiFeatures", features_value (get_admin_ui_features v.store)) ∷ []))
          v)
      (require_admin env sid msg w)

abbrev pub features_response : String
features_response = "admin-set-ui-features-response"

-- `none` is the panic of a write into a nil map, which ends the program.
unfoldable pub patch_features : String → Value → World → Option World
patch_features sid (obj patch) w = elim (set_admin_ui_features_patch (fields patch) w.store) [
  | none ↦ none
  | some (next, s) ↦ some (
      say sid (success features_response (("adminUiFeatures", obj (to_obj next)) ∷ []))
        (record w { store = s }))
]
patch_features sid v w = some (say sid (refusal features_response "INVALID_INPUT") w)

unfoldable pub set_features : String → Msg → Option AdminRow × World → Option World
unfolding patch_features
set_features sid msg (none, w) = some (say sid (refusal features_response "FORBIDDEN") w)
set_features sid msg (some a, w) =
    if a.role == "super_admin"
    then patch_features sid (field msg "features") w
    else some (say sid (refusal features_response "FORBIDDEN") w)

unfoldable pub handle_admin_set_ui_features : Env → String → Msg → World → Option World
unfolding set_features
handle_admin_set_ui_features env sid msg w = set_features sid msg (require_admin env sid msg w)
