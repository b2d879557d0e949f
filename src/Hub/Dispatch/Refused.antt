-- ===== src/Hub/Dispatch/Refused.antt =====
-- What the handlers of administrators do for a message without a session.
use go_signing_server_anywhe.Prelude.{
  String, ◌≡◌, refl, ◌⊎◌, inl, inr, true, Option, none, some, arith, if◌then◌else◌, Bool-cases,
  Option-cases, ◌==◌, ◌!=◌, nat_eq, int_eq, string_eq,
}
use go_signing_server_anywhe.Text.{is_empty}
use go_signing_server_anywhe.Util.{as_token, msg_type}
use go_signing_server_anywhe.Auditproxy.{AuditEnv, Exchange}
use go_signing_server_anywhe.Db.Tables.{Store, AdminRow}
use go_signing_server_anywhe.Db.Admins.{get_admin_by_session_token}
use go_signing_server_anywhe.Hub.Types.{Conn, ClientIdentity}
use go_signing_server_anywhe.Hub.Types.Json.{Msg, field}
use go_signing_server_anywhe.Hub.World.{World, Env, say, error_reply, require_admin}
use go_signing_server_anywhe.Hub.Relay.{
  relay_signaling, take_sources, relay_to, relay_target, client_of, signature, screen_sources,
  source_items,
}
use go_signing_server_anywhe.Hub.Transfer.Authority.{broadcast_clients-store}
use go_signing_server_anywhe.Hub.Viewing.{
  handle_admin_stop_viewing, handle_admin_focus_client_app, handle_admin_remove_client,
  handle_admin_force_update_client, handle_admin_get_clients,
}
use go_signing_server_anywhe.Hub.Security.{handle_admin_reset_password}
use go_signing_server_anywhe.Hub.Transfer.Requests.{
  handle_admin_create_transfer_request, handle_admin_respond_transfer_request,
  handle_admin_update_client_org,
}
use go_signing_server_anywhe.Hub.Grants.{handle_remote_access, handle_stream_relay}
use go_signing_server_anywhe.Hub.Accounts.{by_super_admin, handle_admin_register}
use go_signing_server_anywhe.Hub.Settings.{
  as_admin, answer_orgs, handle_admin_get_org_leads, handle_admin_get_ui_features, set_features,
  handle_admin_set_ui_features,
}
use go_signing_server_anywhe.Hub.Settings.Window.{
  handle_admin_get_stream_window, handle_admin_set_stream_window,
}
use go_signing_server_anywhe.Hub.Settings.Lists.{
  handle_admin_list_resettable_admins, answer_transfer_requests,
}
use go_signing_server_anywhe.Hub.Audit.{
  audit_handler, audit_proxy_list, audit_proxy_review, audit_proxy_groups_get,
  audit_proxy_groups_mutate,
}

-- The message carries no token, or none of a session that is still valid.
abbrev pub NoSession : Env → Msg → Store → Type 0
NoSession env msg s =
    (is_empty (as_token (field msg "token")) ≡ true)
    ⊎ (get_admin_by_session_token (as_token (field msg "token")) env.now s ≡ none)

module _ (env : Env) (sid : String) (msg : Msg) (w : World) (h : NoSession env msg w.store) where
  -- requireAdmin answers, and gives nobody.
  require_none : require_admin env sid msg w ≡ (none, say sid (error_reply "UNAUTHORIZED") w)
  unfolding require_admin
  require_none = elim (Bool-cases (is_empty (as_token (field msg "token")))) [
    | inl e ↦ rw (e, require_admin) refl
    | inr e ↦ elim h [
      | inl d ↦ absurd (ground (arith, d, e))
      | inr d ↦ rw (e, d, require_admin) refl
    ]
  ]

  pub create_transfer-refused : (handle_admin_create_transfer_request env sid msg w).store ≡ w.store
  unfolding handle_admin_create_transfer_request
  create_transfer-refused =
      rw (require_none, handle_admin_create_transfer_request) (rw require_none refl)

  pub respond_transfer-refused :
      (handle_admin_respond_transfer_request env sid msg w).store ≡ w.store
  unfolding handle_admin_respond_transfer_request
  respond_transfer-refused =
      rw (require_none, handle_admin_respond_transfer_request) (rw require_none refl)

  pub update_org-refused : (handle_admin_update_client_org env sid msg w).store ≡ w.store
  unfolding handle_admin_update_client_org
  update_org-refused = rw (require_none, handle_admin_update_client_org) (rw require_none refl)

  pub get_clients-refused : (handle_admin_get_clients env sid msg w).store ≡ w.store
  unfolding handle_admin_get_clients
  get_clients-refused = rw (require_none, handle_admin_get_clients) (rw require_none refl)

  pub stop_viewing-refused : (handle_admin_stop_viewing env sid msg w).store ≡ w.store
  unfolding handle_admin_stop_viewing
  stop_viewing-refused = rw (require_none, handle_admin_stop_viewing) (rw require_none refl)

  pub focus-refused : (handle_admin_focus_client_app env sid msg w).store ≡ w.store
  unfolding handle_admin_focus_client_app
  focus-refused = rw (require_none, handle_admin_focus_client_app) (rw require_none refl)

  pub remove_client-refused : (handle_admin_remove_client env sid msg w).store ≡ w.store
  unfolding handle_admin_remove_client
  remove_client-refused = rw (require_none, handle_admin_remove_client) (rw require_none refl)

  pub force_update-refused : (handle_admin_force_update_client env sid msg w).store ≡ w.store
  unfolding handle_admin_force_update_client
  force_update-refused = rw (require_none, handle_admin_force_update_client) (rw require_none refl)

  pub reset_password-refused :
      (hash : String → Option String)
      → (handle_admin_reset_password hash env sid msg w).store ≡ w.store
  unfolding handle_admin_reset_password
  reset_password-refused hash =
      rw (require_none, handle_admin_reset_password) (rw require_none refl)

  pub remote_access-refused :
      (typ : String) → (handle_remote_access env sid typ msg w).store ≡ w.store
  unfolding handle_remote_access
  remote_access-refused typ = rw (require_none, handle_remote_access) (rw require_none refl)

  pub stream_relay-refused :
      (typ : String) → (handle_stream_relay env sid typ msg w).store ≡ w.store
  unfolding handle_stream_relay
  stream_relay-refused typ = rw (require_none, handle_stream_relay) (rw require_none refl)

  as_admin-refused :
      (act : AdminRow → World → World)
      → (as_admin act (require_admin env sid msg w)).store ≡ w.store
  unfolding as_admin
  as_admin-refused act = rw require_none refl

  by_super_admin-refused :
      (denial : Msg) (act : World → World)
      → (by_super_admin sid denial act (require_admin env sid msg w)).store ≡ w.store
  unfolding by_super_admin
  by_super_admin-refused denial act = rw require_none refl

  pub register-refused : (handle_admin_register env sid msg w).store ≡ w.store
  unfolding handle_admin_register
  register-refused = by_super_admin-refused _ _

  pub orgs-refused : (typ : String) → (answer_orgs env typ sid msg w).store ≡ w.store
  unfolding answer_orgs
  orgs-refused typ = as_admin-refused _

  pub org_leads-refused : (handle_admin_get_org_leads env sid msg w).store ≡ w.store
  unfolding handle_admin_get_org_leads
  org_leads-refused = as_admin-refused _

  pub get_features-refused : (handle_admin_get_ui_features env sid msg w).store ≡ w.store
  unfolding handle_admin_get_ui_features
  get_features-refused = as_admin-refused _

  pub get_window-refused : (handle_admin_get_stream_window env sid msg w).store ≡ w.store
  unfolding handle_admin_get_stream_window
  get_window-refused = as_admin-refused _

  pub set_window-refused : (handle_admin_set_stream_window env sid msg w).store ≡ w.store
  unfolding handle_admin_set_stream_window
  set_window-refused = by_super_admin-refused _ _

  pub resettable-refused : (handle_admin_list_resettable_admins env sid msg w).store ≡ w.store
  unfolding handle_admin_list_resettable_admins
  resettable-refused = by_super_admin-refused _ _

  pub transfers-refused : (answer_transfer_requests env sid msg w).store ≡ w.store
  unfolding answer_transfer_requests
  transfers-refused = as_admin-refused _

  pub set_features-refused :
      (w' : World) × (handle_admin_set_ui_features env sid msg w ≡ some w') × (w'.store ≡ w.store)
  unfolding handle_admin_set_ui_features set_features
  set_features-refused = rw require_none (_, refl, refl)

  module _ (audit : AuditEnv) (exchange : String → String → String → Option Msg → Exchange) where
    pub audit_list-refused : (audit_proxy_list audit exchange env sid msg w).store ≡ w.store
    unfolding audit_proxy_list audit_handler
    audit_list-refused = by_super_admin-refused _ _

    pub audit_review-refused : (audit_proxy_review audit exchange env sid msg w).store ≡ w.store
    unfolding audit_proxy_review audit_handler
    audit_review-refused = by_super_admin-refused _ _

    pub audit_get-refused : (audit_proxy_groups_get audit exchange env sid msg w).store ≡ w.store
    unfolding audit_proxy_groups_get audit_handler
    audit_get-refused = by_super_admin-refused _ _

    pub audit_mutate-refused :
        (audit_proxy_groups_mutate audit exchange env sid msg w).store ≡ w.store
    unfolding audit_proxy_groups_mutate audit_handler
    audit_mutate-refused = by_super_admin-refused _ _

take_sources-store :
    (env : Env) (sid : String) (c : Conn) (who : ClientIdentity) (msg : Msg) (w : World)
    → (take_sources env sid c who msg w).store ≡ w.store
unfolding take_sources
take_sources-store env sid c who msg w =
    elim (Bool-cases
      (c.screen_sources_sig != signature (screen_sources 8 (source_items (field msg "sources"))))) [
        | inl e ↦ rw (e, take_sources) (broadcast_clients-store env who.org_id _)
        | inr e ↦ rw (e, take_sources) refl
      ]

relay_to-store :
    (env : Env) (sid : String) (c : Conn) (msg : Msg) (w : World)
    → (relay_to env sid c msg w).store ≡ w.store
unfolding relay_to
relay_to-store env sid c msg w = elim (Option-cases (relay_target msg w.hub.conns)) [
  | inr (target, e) ↦ rw (e, relay_to) refl
  | inl e ↦ elim (Bool-cases (msg_type msg == "client-screen-sources")) [
    | inl d ↦ rw (e, d, relay_to) refl
    | inr d ↦ rw (e, d, relay_to) refl
  ]
]

-- Relaying changes no table.
pub relay_signaling-store :
    (env : Env) (sid : String) (c : Conn) (msg : Msg) (w : World)
    → (relay_signaling env sid c msg w).store ≡ w.store
unfolding relay_signaling
relay_signaling-store env sid c msg w =
    elim (Option-cases (if msg_type msg == "client-screen-sources" then client_of c else none)) [
      | inl e ↦ rw (e, relay_signaling) (relay_to-store env sid c msg w)
      | inr (who, e) ↦ rw (e, relay_signaling) (take_sources-store env sid c who msg w)
    ]
