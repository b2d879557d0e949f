-- ===== src/Hub/Security.antt =====
-- Resetting an administrator's password (internal/hub/admin_security.go, internal/db/admin_security.go).
pub mod SignedOut
use go_signing_server_anywhe.Prelude.{
  ℕ, zero, suc, ◌+◌, ◌-◌, ◌*◌, ◌/◌, ◌%◌, ◌^◌, ◌≤◌, ◌<◌, String, ◌≡◌, refl, sym, ap, ◌∙◌, ◌≢◌, ◌↔◌,
  ◌⊎◌, inl, inr, Bool, true, false, not, ◌&&◌, ◌||◌, Option, none, some, List, [], ◌∷◌, ◌++◌, map,
  arith, eq_iff, ltb, leb, nat_beq, if◌then◌else◌, ltb→lt, lt→ltb, leb→le, le→leb, nat_beq_iff,
  tests, Bool-cases, Option-cases, ℤ, pos, negsuc, pos_part, neg_part, sub_ℕ, ◌+ℤ◌, ◌-ℤ◌, ◌≤ℤ◌,
  ◌<ℤ◌, ltb_ℤ, leb_ℤ, int_beq, int_beq_iff, Eq, ◌==◌, ◌!=◌, nat_eq, int_eq, string_eq, string_beq,
  string_beq_iff, beq_refl, length, take, keep, count, length-append, length-keep-le,
  length-keep-count, keep-append, has, add, remove, IsSetList, has-add, has-remove, add-IsSetList,
  remove-IsSetList, remove_absent, length-remove, length-remove-le,
}
use go_signing_server_anywhe.Text.{byte_len}
use go_signing_server_anywhe.Util.{to_int64, as_non_empty_string}
use go_signing_server_anywhe.Db.Tables.{Store, AdminRow, update_where}
use go_signing_server_anywhe.Db.Admins.{get_admin_by_id, revoke_all_admin_sessions}
use go_signing_server_anywhe.Hub.Types.{Hub, Conn, Conns, AdminIdentity, send_conn, close_ws}
use go_signing_server_anywhe.Hub.Types.Json.{Msg, str, int, field}
use go_signing_server_anywhe.Hub.World.{World, Env, say, refusal, success, require_admin}

abbrev pub reset_response : String
reset_response = "admin-reset-password-response"

abbrev pub revoked : Msg
revoked =
    ("type", str "admin-session-revoked")
    ∷ ("reason", str "password_reset")
    ∷ ("message", str "Your password was reset. Please sign in again.")
    ∷ []

unfoldable pub is_admin_conn : ℤ → Conn → Bool
is_admin_conn id c = elim c.admin [ none ↦ false | some a ↦ a.admin_id == id ]

-- The sockets of an administrator.
unfoldable pub sockets_of_admin : ℤ → Conns → List String
unfolding is_admin_conn
sockets_of_admin id [] = []
sockets_of_admin id ((sid, c) ∷ rest) =
    let more = sockets_of_admin id rest in if is_admin_conn id c then sid ∷ more else more

unfoldable pub tell_all : List String → Msg → Hub → Hub
tell_all [] m h = h
tell_all (sid ∷ sids) m h = tell_all sids m (send_conn sid m h)

unfoldable pub close_all : List String → Hub → Hub
close_all [] h = h
close_all (sid ∷ sids) h = close_all sids (close_ws sid h)

unfoldable pub revoke_admin_sessions_and_disconnect : ℤ → World → World
unfolding sockets_of_admin tell_all close_all
revoke_admin_sessions_and_disconnect id w =
    let sids = sockets_of_admin id w.hub.conns in
    record {
      hub = close_all sids (tell_all sids revoked w.hub);
      store = revoke_all_admin_sessions id w.store;
    }

-- `hash_password` is HashPassword of internal/auth/password.go, `none` where it fails.
module _ (hash_password : String → Option String) where
  -- UpdateAdminPassword; `none` is an error.
  unfoldable pub update_admin_password : ℤ → String → Store → Option Store
  update_admin_password id password s = elim (hash_password password) [
    | none ↦ none
    | some hash ↦
        if s.up
        then some (record s {
          admins =
              update_where (λ a. a.admin_id == id) (λ a. record a { password_hash = hash })
                s.admins;
        })
        else none
  ]

  -- A target that was found.
  unfoldable pub reset_target : String → AdminRow → String → World → World
  unfolding update_admin_password revoke_admin_sessions_and_disconnect
  reset_target sid t password w =
      if (t.role != "org_admin") && (t.role != "super_admin")
      then say sid
          (refusal reset_response "FORBIDDEN"
            ++ ("message", str "Only org admin and super admin accounts can be reset.") ∷ [])
          w
      else (elim (update_admin_password t.admin_id password w.store) [
        | none ↦ say sid (refusal reset_response "SERVER_ERROR") w
        | some s ↦
            say sid
              (success reset_response (
                ("targetAdminId", int t.admin_id)
                ∷ ("username", str t.username)
                ∷ ("fullName", str t.full_name)
                ∷ ("message", str "Password updated. The account has been signed out everywhere.")
                ∷ []))
              (revoke_admin_sessions_and_disconnect t.admin_id (record w { store = s }))
      ])

  -- The body for an actor that is signed in.
  unfoldable pub reset_password : String → AdminRow → Msg → World → World
  unfolding reset_target
  reset_password sid actor msg w =
      let (id, ok) = to_int64 (field msg "targetAdminId") in
      let password = as_non_empty_string (field msg "newPassword") 500 in
      if actor.role != "super_admin"
      then say sid (refusal reset_response "FORBIDDEN") w
      else if not ok
      then say sid (refusal reset_response "INVALID_INPUT") w
      else if ltb (byte_len password) 8
      then say sid
          (refusal reset_response "INVALID_INPUT"
            ++ ("message", str "Password must be at least 8 characters.") ∷ [])
          w
      else (elim (get_admin_by_id id w.store) [
        | none ↦ say sid (refusal reset_response "NOT_FOUND") w
        | some t ↦ reset_target sid t password w
      ])

  unfoldable pub handle_admin_reset_password : Env → String → Msg → World → World
  unfolding reset_password
  handle_admin_reset_password env sid msg w =
      let (who, w') = require_admin env sid msg w in
      elim who [
        | none ↦ say sid (refusal reset_response "FORBIDDEN") w'
        | some actor ↦ reset_password sid actor msg w'
      ]
