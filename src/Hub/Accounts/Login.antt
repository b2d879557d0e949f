-- ===== src/Hub/Accounts/Login.antt =====
-- Who is given a session by a login.
use go_signing_server_anywhe.Prelude.{
  String, ◌≡◌, refl, ◌⊎◌, inl, inr, Bool, true, false, Option, none, some, List, Bool-cases,
  Option-cases, nat_eq, int_eq, string_eq,
}
use go_signing_server_anywhe.Prelude.Map.{get}
use go_signing_server_anywhe.Util.{as_non_empty_string}
use go_signing_server_anywhe.Db.Tables.{Store, AdminRow, AdminSession}
use go_signing_server_anywhe.Db.Organizations.{
  Org, get_organization_by_name, get_admin_by_org_and_username, verify_admin_password,
  create_admin_session,
}
use go_signing_server_anywhe.Hub.Types.Json.{Msg, field}
use go_signing_server_anywhe.Hub.World.{World, Env}
use go_signing_server_anywhe.Hub.SignIn.{maybe_send_admin_ip_status}
use go_signing_server_anywhe.Hub.Accounts.{
  start_session, log_in_as, log_in_to, found, handle_admin_login,
}

maybe_send-store :
    (env : Env) (sid : String) (a : AdminRow) (w : World)
    → (maybe_send_admin_ip_status env sid a w).store ≡ w.store
unfolding maybe_send_admin_ip_status
maybe_send-store env sid a w = elim (Option-cases (get sid w.hub.conns)) [
  | inl e ↦ rw (e, maybe_send_admin_ip_status) refl
  | inr (c, e) ↦ elim (Bool-cases c.ip_status_sent) [
    | inl b ↦ rw (e, b, maybe_send_admin_ip_status) refl
    | inr b ↦ rw (e, b, maybe_send_admin_ip_status) refl
  ]
]

start_session-store :
    (env : Env) (sid : String) (org : Org) (a : AdminRow) (ips : List String)
    (made : (AdminSession × Bool) × Store) (w : World)
    → (start_session env sid org a ips made w).store ≡ made.1
unfolding start_session
start_session-store env sid org a ips ((x, false), s) w = refl
start_session-store env sid org a ips ((x, true), s) w = maybe_send-store env sid a _

-- The account that a login names, with its password.
abbrev pub Credentials : Env → Msg → Store → AdminRow → Type 0
Credentials env msg s a =
    (org : Org) × (get_organization_by_name env.lower_rune
        (as_non_empty_string (field msg "orgName") 200) s
      ≡ some (some org))
    × (get_admin_by_org_and_username env.lower_rune org.0
          (as_non_empty_string (field msg "username") 200) s
        ≡ some a)
    × (verify_admin_password env.scrypt_key a.password_hash
          (as_non_empty_string (field msg "password") 500)
        ≡ true)

log_in_as-store :
    (env : Env) (sid : String) (org : Org) (password : String) (o : Option AdminRow) (msg : Msg)
    (w : World)
    → ((log_in_as env sid org password o msg w).store ≡ w.store)
      ⊎ ((a : AdminRow) × (o ≡ some a)
          × (verify_admin_password env.scrypt_key a.password_hash password ≡ true)
          × ((log_in_as env sid org password o msg w).store
              ≡ (create_admin_session env.session_bytes a.admin_id env.now w.store).1))
unfolding log_in_as
log_in_as-store env sid org password none msg w = inl refl
log_in_as-store env sid org password (some a) msg w =
    elim (Bool-cases (verify_admin_password env.scrypt_key a.password_hash password)) [
      | inl e ↦ inr (
        a,
        refl,
        e,
        rw e (
            start_session-store env sid org a _
              (create_admin_session env.session_bytes a.admin_id env.now w.store) w),
      )
      | inr e ↦ inl (rw e refl)
    ]

log_in_to-store :
    (env : Env) (sid : String) (o : Option (Option Org)) (msg : Msg) (w : World)
    → get_organization_by_name env.lower_rune
        (as_non_empty_string (field msg "orgName") 200)
        w.store
      ≡ o
    → ((log_in_to env sid (found o) msg w).store ≡ w.store)
      ⊎ ((a : AdminRow) × Credentials env msg w.store a
          × ((log_in_to env sid (found o) msg w).store
              ≡ (create_admin_session env.session_bytes a.admin_id env.now w.store).1))
unfolding log_in_to found
log_in_to-store env sid none msg w h = inl refl
log_in_to-store env sid (some none) msg w h = inl refl
log_in_to-store env sid (some (some org)) msg w h = elim (log_in_as-store env sid org _ _ msg w) [
  | inl same ↦ inl same
  | inr (a, row, right, made) ↦ inr (a, (org, h, row, right), made)
]

-- A login changes the database in no way but one: it adds a session for an account, and then the
-- message names that account's organization and username, and its password passes against the
-- stored form.
pub handle_admin_login-store :
    (env : Env) (sid : String) (msg : Msg) (w : World)
    → ((handle_admin_login env sid msg w).store ≡ w.store)
      ⊎ ((a : AdminRow) × Credentials env msg w.store a
          × ((handle_admin_login env sid msg w).store
              ≡ (create_admin_session env.session_bytes a.admin_id env.now w.store).1))
unfolding handle_admin_login
handle_admin_login-store env sid msg w = log_in_to-store env sid _ msg w refl
