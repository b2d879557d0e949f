-- ===== src/Hub/Viewing/Removal.antt =====
-- Who may remove a client (internal/hub/handlers.go, handleAdminRemoveClient).
use go_signing_server_anywhe.Prelude.{
  String, ◌≡◌, refl, inl, inr, Bool, true, false, ◌&&◌, ◌||◌, some, arith, if◌then◌else◌,
  Option-cases, ℤ, ◌==◌, nat_eq, int_eq, string_eq, string_beq, string_beq_iff,
}
use go_signing_server_anywhe.Util.{to_int64}
use go_signing_server_anywhe.Db.Tables.{AdminRow, ClientRow}
use go_signing_server_anywhe.Db.Clients.{get_client_by_id, disable_client}
use go_signing_server_anywhe.Hub.Types.Json.{Msg, field}
use go_signing_server_anywhe.Hub.World.{World, Env}
use go_signing_server_anywhe.Hub.Transfer.Authority.{broadcast_clients-store}
use go_signing_server_anywhe.Hub.Viewing.{remove_row, remove_client}

-- A super admin removes any client, a team lead one of the own team, and nobody else removes any.
unfoldable pub may_remove : AdminRow → ClientRow → Bool
may_remove a c = (a.role == "super_admin") || ((a.role == "org_admin") && (c.org_id == a.org_id))

remove_row-store :
    (env : Env) (sid : String) (c : ClientRow) (w : World)
    → (remove_row env sid c w).store ≡ disable_client c.id w.store
unfolding remove_row
remove_row-store env sid c w = elim (Option-cases c.socket_id) [
  | inl e ↦ rw (broadcast_clients-store, e) refl
  | inr (s, e) ↦ rw (broadcast_clients-store, e) refl
]

not_both : (role : String) → (role == "super_admin") ≡ true → (role == "org_admin") ≡ false
unfolding string_beq
not_both role h = rw ((string_beq_iff role "super_admin").0 h) refl

-- A request to remove a client that is found disables that client in the database if the sender
-- may remove it, and changes nothing there otherwise.
pub remove_client-store :
    (env : Env) (sid : String) (a : AdminRow) (msg : Msg) (w : World) (id : ℤ) (c : ClientRow)
    → to_int64 (field msg "clientId") ≡ (id, true)
    → get_client_by_id id w.store ≡ some c
    → (remove_client env sid a msg w).store
      ≡ (if may_remove a c then disable_client c.id w.store else w.store)
unfolding remove_client may_remove
remove_client-store env sid a msg w id c number found =
    ground (arith, number, found, remove_row-store env sid c w, not_both a.role)
