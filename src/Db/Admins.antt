-- ===== src/Db/Admins.antt =====
-- internal/db/store.go, admin_security.go: the administrators and their sign-in sessions.
use go_signing_server_anywhe.Prelude.{
  ℕ, String, not, Option, none, some, ltb, if◌then◌else◌, ℤ, ◌==◌, ◌!=◌, nat_eq, int_eq, string_eq,
  keep,
}
use go_signing_server_anywhe.Db.Tables.{AdminRow, Store, find_where}

-- The join of the session and its administrator, and the check of the expiry.
unfoldable pub get_admin_by_session_token : String → ℕ → Store → Option AdminRow
get_admin_by_session_token token now s =
    if s.up
    then (elim (find_where (λ x. x.token == token) s.admin_sessions) [
      | none ↦ none
      | some x ↦
          if ltb x.expires_at now then none else find_where (λ a. a.admin_id == x.admin_id) s.admins
    ])
    else none

unfoldable pub revoke_admin_session : String → Store → Store
revoke_admin_session token s =
    if s.up then record s { admin_sessions = keep (λ x. x.token != token) s.admin_sessions } else s

unfoldable pub revoke_all_admin_sessions : ℤ → Store → Store
revoke_all_admin_sessions admin_id s =
    if s.up
    then record s { admin_sessions = keep (λ x. x.admin_id != admin_id) s.admin_sessions }
    else s

unfoldable pub purge_expired_sessions : ℕ → Store → Store
purge_expired_sessions now s =
    if s.up
    then record s { admin_sessions = keep (λ x. not (ltb x.expires_at now)) s.admin_sessions }
    else s

unfoldable pub get_admin_by_id : ℤ → Store → Option AdminRow
get_admin_by_id id s = if s.up then find_where (λ a. a.admin_id == id) s.admins else none
