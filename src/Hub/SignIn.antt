-- ===== src/Hub/SignIn.antt =====
-- Clients and administrators sign in (internal/hub/handlers.go, hub.go).
use go_signing_server_anywhe.Prelude.{
  ◌+◌, String, Bool, true, false, not, ◌&&◌, ◌||◌, Option, none, some, [], ◌∷◌, ◌++◌, ltb,
  if◌then◌else◌, ℤ, pos, ◌==◌, nat_eq, int_eq, string_eq,
}
use go_signing_server_anywhe.Prelude.Map.{get, put, holds}
use go_signing_server_anywhe.Text.{is_empty}
use go_signing_server_anywhe.Text.Case.{text}
use go_signing_server_anywhe.Text.Bytes.{bytes}
use go_signing_server_anywhe.Util.{as_non_empty_string}
use go_signing_server_anywhe.Auth.Ingest.{sign_ingest_token}
use go_signing_server_anywhe.Iputil.{is_on_office_network, office_network_label}
use go_signing_server_anywhe.StreamWindow.{
  Policy, Verdict, no_zone, verdict, normalize, human_window,
}
use go_signing_server_anywhe.Db.Tables.{Store, AdminRow, GrantRow}
use go_signing_server_anywhe.Db.Clients.{get_socket_id_for_device}
use go_signing_server_anywhe.Db.Grants.{get_active}
use go_signing_server_anywhe.Db.SignIn.{
  SignedClient, UpsertResult, signed_in, refused, upsert_client_auth,
}
use go_signing_server_anywhe.Hub.Types.{Hub, Conn, client, send_conn, update_conn, close_ws}
use go_signing_server_anywhe.Hub.Types.Json.{Msg, Value, null, str, bool, int, obj, field}
use go_signing_server_anywhe.Hub.World.{World, Env, say, refusal, success}
use go_signing_server_anywhe.Hub.Roster.{to_obj, broadcast_clients}

abbrev pub auth_response : String
auth_response = "client-auth-response"

-- What the database says against a sign-in.
abbrev pub auth_refusal : String → String → Msg
auth_refusal code message = refusal auth_response code ++ ("message", str message) ∷ []

unfoldable pub become_client : SignedClient → String → String → Conn → Conn
become_client c device_id version conn = record conn {
  kind = client;
  client =
      some
        (record { id = c.id; org_id = c.org_id; full_name = c.full_name; device_id = device_id });
  admin = none;
  app_version = version;
}

-- The token where there is one; SignIngestToken's error leaves it empty.
unfoldable pub ingest_token : Env → Hub → SignedClient → String
ingest_token env h c =
    elim (sign_ingest_token env.mac env.unmarshal (pos env.now) (bytes h.cfg.ingest_token_secret)
      c.id c.org_id h.cfg.ingest_token_ttl_ms) [ none ↦ "" | some token ↦ text token ]

unfoldable pub auth_success : SignedClient → String → Msg
auth_success c token = success auth_response (
    (
      "client",
      obj (
          to_obj (
            ("id", int c.id)
            ∷ ("orgId", int c.org_id)
            ∷ ("fullName", str c.full_name)
            ∷ ("status", str c.status)
            ∷ [])),
    )
    ∷ ("ingestToken", str token)
    ∷ [])

-- The socket that the device had before is closed, where it is another one.
unfoldable pub close_previous : String → Option String → Hub → Hub
close_previous sid none h = h
close_previous sid (some prev) h = if prev == sid then h else close_ws prev h

unfoldable pub broadcast_extra : Env → Option ℤ → World → World
broadcast_extra env none w = w
broadcast_extra env (some org_id) w = broadcast_clients env org_id w

-- What follows UpsertClientAuth.
unfoldable pub client_signed_in :
    Env → String → String → String → Option String → UpsertResult × Store → World → World
unfolding become_client ingest_token auth_success close_previous broadcast_extra
client_signed_in env sid device_id version prev (refused code message, s) w =
    say sid (auth_refusal code message) (record w { store = s })
client_signed_in env sid device_id version prev (signed_in c extra, s) w =
    let h1 = update_conn sid (become_client c device_id version) w.hub in
    let h2 = send_conn sid (auth_success c (ingest_token env h1 c)) h1 in
    broadcast_extra env extra
      (broadcast_clients env c.org_id (record { hub = close_previous sid prev h2; store = s }))

-- Another live socket of the device: its last takeover is too near, or is noted.
unfoldable pub throttled : Env → String → String → Hub → Bool
throttled env device_id prev h =
    holds prev h.conns && (elim (get device_id h.last_device_takeover) [
      | none ↦ ltb env.now h.cfg.device_takeover_cooldown_ms
      | some last ↦ ltb env.now (last + h.cfg.device_takeover_cooldown_ms)
    ])

unfoldable pub is_throttled : Env → String → String → Option String → Hub → Bool
unfolding throttled
is_throttled env sid device_id none h = false
is_throttled env sid device_id (some prev) h =
    if prev == sid then false else throttled env device_id prev h

unfoldable pub note_takeover : Env → String → String → Option String → Hub → Hub
note_takeover env sid device_id none h = h
note_takeover env sid device_id (some prev) h =
    if not (prev == sid) && holds prev h.conns
    then record h { last_device_takeover = put device_id env.now h.last_device_takeover }
    else h

unfoldable pub sign_client_in : Env → String → String → String → String → Msg → World → World
unfolding client_signed_in is_throttled note_takeover
sign_client_in env sid device_id org_name full_name msg w =
    let prev = get_socket_id_for_device device_id w.store in
    if is_throttled env sid device_id prev w.hub
    then record w {
      hub = close_ws sid (send_conn sid (refusal auth_response "DUPLICATE_DEVICE") w.hub);
    }
    else client_signed_in env sid device_id (as_non_empty_string (field msg "appVersion") 32) prev
        (upsert_client_auth env.lower_rune device_id org_name full_name sid env.now w.store)
        (record w { hub = note_takeover env sid device_id prev w.hub })

unfoldable pub handle_client_auth : Env → String → Msg → World → World
unfolding sign_client_in
handle_client_auth env sid msg w =
    let device_id = as_non_empty_string (field msg "deviceId") 200 in
    let org_name = as_non_empty_string (field msg "orgName") 200 in
    let full_name = as_non_empty_string (field msg "fullName") 200 in
    if is_empty device_id || is_empty org_name || is_empty full_name
    then say sid (refusal auth_response "INVALID_INPUT") w
    else sign_client_in env sid device_id org_name full_name msg w

-- What an administrator is told of the active grant.
unfoldable pub grant_fields : Option GrantRow → Value
grant_fields none = null
grant_fields (some g) = obj (
    to_obj (
      ("expiresAt", elim g.expires_at [ none ↦ null | some t ↦ int t ])
      ∷ ("durationHours", int g.duration_hours)
      ∷ ("grantId", int g.id)
      ∷ []))

unfoldable pub ip_status : Env → AdminRow → Store → Conn → Msg
unfolding grant_fields
ip_status env a s c =
    ("type", str "admin-ip-status")
    ∷ ("isOffice", bool (is_on_office_network env.lower_rune env.parse_ip4 c.ip c.workstation_ips))
    ∷ ("officeName", str (office_network_label env.lower_rune env.parse_ip4 c.ip c.workstation_ips))
    ∷ ("adminIp", str c.ip)
    ∷ ("role", str a.role)
    ∷ (
      "activeRemoteGrant",
      grant_fields (if s.up then get_active a.admin_id env.now s.remote_access else none),
    )
    ∷ []

-- maybeSendAdminIPStatus
unfoldable pub maybe_send_admin_ip_status : Env → String → AdminRow → World → World
unfolding ip_status
maybe_send_admin_ip_status env sid a w = elim (get sid w.hub.conns) [
  | none ↦ w
  | some c ↦
      if c.ip_status_sent
      then w
      else say sid (ip_status env a w.store c)
          (record w { hub = update_conn sid (λ x. record x { ip_status_sent = true }) w.hub })
]

-- streamWindowPayload
unfoldable pub stream_window_payload : Policy → Bool → Value
stream_window_payload policy allowed =
    let p = normalize policy in
    obj (
      to_obj (
        ("enabled", bool p.enabled)
        ∷ ("timezone", str p.timezone)
        ∷ ("startHour", int p.start_hour)
        ∷ ("endHour", int p.end_hour)
        ∷ ("windowLabel", str (human_window p))
        ∷ ("allowedNow", bool allowed)
        ∷ []))

-- The first result of AllowedNow.
unfoldable pub is_allowed : Verdict → Bool
is_allowed no_zone = false
is_allowed (verdict ok) = ok
