-- ===== src/Hub/Settings/Window.antt =====
-- internal/hub/admin_security.go: the messages about the window in which team leads may view.

use go_signing_server_anywhe.Prelude.{
  String, false, Option, none, some, [], ◌∷◌, pos, nat_eq, int_eq, string_eq,
}
use go_signing_server_anywhe.Util.{int64_of}
use go_signing_server_anywhe.StreamWindow.{Policy}
use go_signing_server_anywhe.Db.Tables.{Store}
use go_signing_server_anywhe.Db.Organizations.{set_org_admin_stream_window}
use go_signing_server_anywhe.Hub.Types.Json.{Msg, Value, bool, float, field}
use go_signing_server_anywhe.Hub.World.{World, Env, say, refusal, success, require_admin}
use go_signing_server_anywhe.Hub.Connect.{get_org_admin_stream_window}
use go_signing_server_anywhe.Hub.SignIn.{stream_window_payload, is_allowed}
use go_signing_server_anywhe.Hub.Accounts.{by_super_admin}
use go_signing_server_anywhe.Hub.Settings.{as_admin}

abbrev pub window_response : String
window_response = "admin-set-stream-window-response"

unfoldable pub window_answer : Env → String → Policy → Msg
window_answer env typ p =
    success typ (("streamWindow", stream_window_payload p (is_allowed (env.window_now p))) ∷ [])

unfoldable pub handle_admin_get_stream_window : Env → String → Msg → World → World
unfolding as_admin window_answer
handle_admin_get_stream_window env sid msg w =
    as_admin
      (λ a v. elim (get_org_admin_stream_window v.store) [
        | none ↦ say sid (refusal "admin-get-stream-window-response" "SERVER_ERROR") v
        | some p ↦ say sid (window_answer env "admin-get-stream-window-response" p) v
      ])
      (require_admin env sid msg w)

-- The three fields of the message that have the right type.
unfoldable pub with_enabled : Value → Policy → Policy
with_enabled (bool b) p = record p { enabled = b }
with_enabled v p = p

unfoldable pub with_start : Value → Policy → Policy
with_start (float t) p = record p { start_hour = int64_of t }
with_start v p = p

unfoldable pub with_end : Value → Policy → Policy
with_end (float t) p = record p { end_hour = int64_of t }
with_end v p = p

-- The zero policy is what an error leaves.
unfoldable pub policy_or_zero : Option Policy → Policy
policy_or_zero none = record {
  enabled = false;
  timezone = "";
  start_hour = pos 0;
  end_hour = pos 0;
}
policy_or_zero (some p) = p

unfoldable pub asked_window : Msg → Store → Policy
unfolding with_enabled with_start with_end policy_or_zero
asked_window msg s = with_end (field msg "endHour") (
    with_start (field msg "startHour")
      (with_enabled (field msg "enabled") (policy_or_zero (get_org_admin_stream_window s))))

unfoldable pub set_window : Env → String → Msg → World → World
unfolding asked_window window_answer
set_window env sid msg w = elim (set_org_admin_stream_window (asked_window msg w.store) w.store) [
  | none ↦ say sid (refusal window_response "SERVER_ERROR") w
  | some (next, s) ↦ say sid (window_answer env window_response next) (record w { store = s })
]

unfoldable pub handle_admin_set_stream_window : Env → String → Msg → World → World
unfolding set_window by_super_admin
handle_admin_set_stream_window env sid msg w =
    by_super_admin sid (refusal window_response "FORBIDDEN") (set_window env sid msg)
      (require_admin env sid msg w)
