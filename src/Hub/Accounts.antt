-- ===== src/Hub/Accounts.antt =====
-- The accounts of administrators and the settings that they change (internal/hub/handlers.go,
-- admin_security.go).
pub mod Login
use go_signing_server_anywhe.Prelude.{
  ℕ, zero, suc, ◌+◌, ◌-◌, ◌*◌, ◌/◌, ◌%◌, ◌^◌, ◌≤◌, ◌<◌, String, ◌≡◌, refl, sym, ap, ◌∙◌, ◌≢◌, ◌↔◌,
  ◌⊎◌, inl, inr, Bool, true, false, not, ◌&&◌, ◌||◌, Option, none, some, List, [], ◌∷◌, ◌++◌, map,
  arith, eq_iff, ltb, leb, nat_beq, if◌then◌else◌, ltb→lt, lt→ltb, leb→le, le→leb, nat_beq_iff,
  tests, Bool-cases, Option-cases, ℤ, pos, negsuc, pos_part, neg_part, sub_ℕ, ◌+ℤ◌, ◌-ℤ◌, ◌≤ℤ◌,
  ◌<ℤ◌, ltb_ℤ, leb_ℤ, int_beq, int_beq_iff, Eq, ◌==◌, ◌!=◌, nat_eq, int_eq, string_eq, string_beq,
  string_beq_iff, beq_refl, length, take, keep, count, length-append, length-keep-le,
  length-keep-count, keep-append, has, add, remove, IsSetList, has-add, has-remove, add-IsSetList,
  remove-IsSetList, remove_absent, length-remove, length-remove-le,
}
use go_signing_server_anywhe.Prelude.Map.{
  get, put, del, get-put, get-del, holds, get-holds, holds-put, holds-del, IsMap, put-IsMap,
  del-IsMap,
}
use go_signing_server_anywhe.Text.{is_empty}
use go_signing_server_anywhe.Util.{as_non_empty_string, parse_workstation_ips, int64_of}
use go_signing_server_anywhe.StreamWindow.{Policy, Verdict}
use go_signing_server_anywhe.Db.Tables.{Store, AdminRow, AdminSession}
use go_signing_server_anywhe.Db.Organizations.{
  Org, ensure_organization, get_organization_by_name, get_admin_by_org_and_username,
  verify_admin_password, create_admin_session, create_admin_account, get_admin_ui_features,
  set_admin_ui_features_patch, get_org_leads, set_org_admin_stream_window,
}
use go_signing_server_anywhe.Hub.Types.{Hub, Conn, admin, AdminIdentity, update_conn}
use go_signing_server_anywhe.Hub.Types.Json.{
  Msg, Value, null, str, bool, int, float, obj, arr, field, fields,
}
use go_signing_server_anywhe.Hub.World.{
  World, Env, say, refusal, success, require_admin, identity_of,
}
use go_signing_server_anywhe.Hub.Roster.{to_obj, to_arr, opt_str}
use go_signing_server_anywhe.Hub.Connect.{get_org_admin_stream_window}
use go_signing_server_anywhe.Hub.SignIn.{
  maybe_send_admin_ip_status, stream_window_payload, is_allowed,
}

abbrev pub login_response : String
login_response = "admin-login-response"

-- The connection after a login, whatever it was before.
unfoldable pub logged_in : AdminRow → String → List String → Conn → Conn
logged_in a token ips c = record c {
  kind = admin;
  workstation_ips = ips;
  admin = some (identity_of a token);
  client = none;
  ip_status_sent = false;
}

unfoldable pub features_value : Option Msg → Value
features_value none = null
features_value (some m) = obj (to_obj m)

-- The window, for a lead.
unfoldable pub login_window : Env → Option Policy → Msg
login_window env none = []
login_window env (some p) =
    ("orgAdminStreamWindow", stream_window_payload p (is_allowed (env.window_now p))) ∷ []

unfoldable pub login_success : Env → Org → AdminRow → AdminSession → Store → Msg
unfolding features_value login_window
login_success env org a x s = success login_response (
    ("token", str x.token)
    ∷ ("expiresAt", int (pos x.expires_at))
    ∷ (
      "admin",
      obj (
          to_obj (
            ("id", int a.admin_id)
            ∷ ("orgId", int org.0)
            ∷ ("username", str a.username)
            ∷ ("fullName", str a.full_name)
            ∷ ("role", str a.role)
            ∷ [])),
    )
    ∷ ("org", obj (to_obj (("id", int org.0) ∷ ("name", str org.1) ∷ [])))
    ∷ ("adminUiFeatures", features_value (get_admin_ui_features s))
    ∷ (if a.role == "org_admin" then login_window env (get_org_admin_stream_window s) else []))

-- With the session that was made.
unfoldable pub start_session :
    Env → String → Org → AdminRow → List String → (AdminSession × Bool) × Store → World → World
unfolding logged_in login_success
start_session env sid org a ips ((x, false), s) w =
    say sid (refusal login_response "SERVER_ERROR") (record w { store = s })
start_session env sid org a ips ((x, true), s) w =
    let hub = update_conn sid (logged_in a x.token ips) w.hub in
    maybe_send_admin_ip_status env sid a
      (say sid (login_success env org a x s) (record { hub = hub; store = s }))

unfoldable pub log_in_as : Env → String → Org → String → Option AdminRow → Msg → World → World
unfolding start_session
log_in_as env sid org password none msg w = say sid (refusal login_response "INVALID_CREDENTIALS") w
log_in_as env sid org password (some a) msg w =
    if not (verify_admin_password env.scrypt_key a.password_hash password)
    then say sid (refusal login_response "INVALID_CREDENTIALS") w
    else start_session env sid org a (parse_workstation_ips (field msg "workstationIps"))
        (create_admin_session env.session_bytes a.admin_id env.now w.store) w

unfoldable pub log_in_to : Env → String → Option Org → Msg → World → World
unfolding log_in_as
log_in_to env sid none msg w = say sid (refusal login_response "UNKNOWN_ORG") w
log_in_to env sid (some org) msg w =
    let username = as_non_empty_string (field msg "username") 200 in
    let password = as_non_empty_string (field msg "password") 500 in
    log_in_as env sid org password
      (get_admin_by_org_and_username env.lower_rune org.0 username w.store) msg w

-- An error of the database is read as no organization.
unfoldable pub found : Option (Option Org) → Option Org
found none = none
found (some o) = o

unfoldable pub handle_admin_login : Env → String → Msg → World → World
unfolding log_in_to found
handle_admin_login env sid msg w =
    let org_name = as_non_empty_string (field msg "orgName") 200 in
    log_in_to env sid (found (get_organization_by_name env.lower_rune org_name w.store)) msg w

-- The handlers that only a super admin may use, on the result of requireAdmin.
unfoldable pub by_super_admin : String → Msg → (World → World) → Option AdminRow × World → World
by_super_admin sid refused act (none, w) = say sid refused w
by_super_admin sid refused act (some a, w) =
    if a.role == "super_admin" then act w else say sid refused w

abbrev pub register_response : String
register_response = "admin-register-response"

-- `org, _ :=` keeps the zero row where there was an error.
unfoldable pub org_or_zero : Option Org → Org
org_or_zero none = (pos 0, "")
org_or_zero (some o) = o

-- An error of the database has its text.
unfoldable pub register_answer : Env → String → String → Org → Option String × Store → World → World
register_answer env sid role org (some code, s) w =
    say sid
      (refusal register_response code
        ++ (
          "message",
          if code == "DUPLICATE" then str "Username already exists" else str env.db_error,
        )
          ∷ [])
      (record w { store = s })
register_answer env sid role org (none, s) w =
    say sid
      (success register_response (
        ("role", str role)
        ∷ ("org", obj (to_obj (("id", int org.0) ∷ ("name", str org.1) ∷ [])))
        ∷ []))
      (record w { store = s })

unfoldable pub register_in : Env → String → Msg → Option Org × Store → World → World
unfolding org_or_zero register_answer
register_in env sid msg (org, s) w =
    let asked = as_non_empty_string (field msg "role") 32 in
    let role : String = if asked == "it_ops" then "it_ops" else "org_admin" in
    register_answer env sid role (org_or_zero org)
      (create_admin_account env.lower_rune env.scrypt_key env.salt (org_or_zero org).0
        (as_non_empty_string (field msg "username") 200)
        (as_non_empty_string (field msg "fullName") 200)
        (as_non_empty_string (field msg "password") 500) role s)
      w

unfoldable pub handle_admin_register : Env → String → Msg → World → World
unfolding by_super_admin register_in
handle_admin_register env sid msg w =
    by_super_admin sid (refusal register_response "UNAUTHORIZED")
      (λ v.
        register_in env sid msg
          (ensure_organization env.lower_rune (as_non_empty_string (field msg "orgName") 200)
            v.store)
          v)
      (require_admin env sid msg w)
