-- ===== src/Hub/Legacy.antt =====
-- The messages of older clients and agents, and what clients report of their path
-- (internal/hub/handlers.go, hub.go).
use go_signing_server_anywhe.Prelude.{
  ℕ, ◌+◌, ◌/◌, ◌%◌, String, Bool, true, false, not, ◌&&◌, ◌||◌, Option, none, some, List, [], ◌∷◌,
  map, ltb, if◌then◌else◌, ℤ, pos, leb_ℤ, ◌==◌, ◌!=◌, nat_eq, int_eq, string_eq, take,
}
use Prim.Native.String.{◌++◌ as str_append}
use go_signing_server_anywhe.Text.{is_empty}
use go_signing_server_anywhe.Text.Case.{text}
use go_signing_server_anywhe.Text.Bytes.{Bytes, bytes}
use go_signing_server_anywhe.Util.{as_non_empty_string, to_int64}
use go_signing_server_anywhe.Db.Tables.{Store, ClientRow}
use go_signing_server_anywhe.Db.Clients.{get_clients_for_org, find_online_client, create_session}
use go_signing_server_anywhe.Db.Grants.{get_active}
use go_signing_server_anywhe.Db.Organizations.{Org, ensure_organization}
use go_signing_server_anywhe.Db.SignIn.{
  UpsertResult, signed_in, refused, upsert_client_auth, has_viewing_session, record_ice_path_report,
}
use go_signing_server_anywhe.Hub.Types.{
  Hub, Conn, client, admin, legacy_agent, ClientIdentity, AdminIdentity, update_conn, kind_eq,
}
use go_signing_server_anywhe.Hub.Types.Json.{Msg, Value, str, bool, int, obj, arr, field}
use go_signing_server_anywhe.Hub.World.{World, Env, say, refusal, success}
use go_signing_server_anywhe.Hub.Roster.{to_obj, to_arr, broadcast_clients, effective_status}
use go_signing_server_anywhe.Hub.Links.{count_admin_targets}
use go_signing_server_anywhe.Hub.Connect.{resolve_live_client}
use go_signing_server_anywhe.Hub.Accounts.{org_or_zero}
use go_signing_server_anywhe.Hub.Transport.{count_client_viewers_by_client_id, to_map}
use go_signing_server_anywhe.Ice.Plan.{Manager, TransportPlan, session_plan}

-- hex.EncodeToString
unfoldable pub hex_digit : ℕ → ℕ
hex_digit d = if ltb d 10 then 48 + d else 87 + d

unfoldable pub hex : Bytes → Bytes
unfolding hex_digit
hex [] = []
hex (b ∷ bs) = hex_digit (b / 16) ∷ hex_digit (b % 16) ∷ hex bs

unfoldable pub legacy_pseudo_device : Env → String → String → String
unfolding hex
legacy_pseudo_device env name sid =
    str_append "legacy-"
      (text (hex (take 16 (env.sha256 (bytes (str_append name (str_append ":" sid)))))))

abbrev pub register_refusal : Msg
register_refusal = ("type", str "register-response") ∷ ("success", bool false) ∷ []

abbrev pub register_success : String → String → Msg
register_success name role =
    success "register-response" (("name", str name) ∷ ("role", str role) ∷ [])

-- An older client, with what UpsertClientAuth answered.
unfoldable pub legacy_signed_in :
    Env → String → String → String → UpsertResult × Store → World → World
legacy_signed_in env sid name dev (refused code message, s) w =
    say sid register_refusal (record w { store = s })
legacy_signed_in env sid name dev (signed_in c extra, s) w =
    let identity : ClientIdentity = record {
      id = c.id;
      org_id = c.org_id;
      full_name = name;
      device_id = dev;
    } in
    let hub = update_conn sid (λ x. record x { kind = client; client = some identity }) w.hub in
    broadcast_clients env c.org_id
      (say sid (register_success name "client") (record { hub = hub; store = s }))

unfoldable pub handle_legacy_register : Env → String → Msg → World → World
unfolding legacy_signed_in legacy_pseudo_device
handle_legacy_register env sid msg w =
    let name = as_non_empty_string (field msg "name") 200 in
    let role = as_non_empty_string (field msg "role") 32 in
    let dev = legacy_pseudo_device env name sid in
    if is_empty name || ((role != "client") && (role != "agent"))
    then say sid register_refusal w
    else if role == "client"
    then legacy_signed_in env sid name dev
        (upsert_client_auth env.lower_rune dev "default" name sid env.now w.store) w
    else say sid (register_success name "agent")
        (record w { hub = update_conn sid (λ x. record x { kind = legacy_agent }) w.hub })

-- EnsureOrganization of the default, an error being the zero row.
unfoldable pub default_world : Env → World → Org × World
default_world env w =
    let (org, s) = ensure_organization env.lower_rune "default" w.store in
    (org_or_zero org, record w { store = s })

unfoldable pub rows_or_none : Option (List ClientRow) → List ClientRow
rows_or_none none = []
rows_or_none (some rows) = rows

unfoldable pub handle_legacy_get_clients : Env → String → World → World
unfolding default_world rows_or_none
handle_legacy_get_clients env sid w =
    let (org, w') = default_world env w in
    let row : ClientRow → Value = λ c. obj (
      to_obj
        (("name", str c.full_name) ∷ ("status", str (effective_status w'.hub.conns c)) ∷ [])) in
    say sid
      (success "clients-list" (
        ("clients", arr (to_arr (map row (rows_or_none (get_clients_for_org org.0 w'.store)))))
        ∷ []))
      w'

abbrev pub unavailable : Msg
unavailable = refusal "connect-response" "CLIENT_UNAVAILABLE"

-- With the live socket of the client.
unfoldable pub legacy_view : String → String → ℤ → ClientRow → Option String → World → World
legacy_view sid agent_name org_id c none w = say sid unavailable w
legacy_view sid agent_name org_id c (some client_sid) w =
    let (session_id, s) = create_session org_id c.id none w.store in
    say sid (success "connect-response" (("sessionId", int session_id) ∷ [])) (
      say client_sid
        (("type", str "agent-connect-request")
          ∷ ("agentName", str agent_name)
          ∷ ("agentSocketId", str sid)
          ∷ ("sessionId", int session_id)
          ∷ [])
        (record w { store = s }))

unfoldable pub legacy_target : String → String → ℤ → Option ClientRow → World → World
unfolding legacy_view
legacy_target sid agent_name org_id none w = say sid unavailable w
legacy_target sid agent_name org_id (some c) w =
    legacy_view sid agent_name org_id c (resolve_live_client c w.hub) w

unfoldable pub handle_legacy_connect : Env → String → Msg → World → World
unfolding default_world legacy_target
handle_legacy_connect env sid msg w =
    let name = as_non_empty_string (field msg "clientName") 200 in
    let asked = as_non_empty_string (field msg "agentName") 200 in
    let agent_name : String = if is_empty asked then "legacy-agent" else asked in
    let (org, w') = default_world env w in
    legacy_target sid agent_name org.0 (find_online_client org.0 name w'.store) w'

-- `msg["usingTurn"].(bool)`, which is false for another type
unfoldable pub bool_of : Value → Bool
bool_of (bool b) = b
bool_of v = false

unfoldable pub path_fields : Msg → Msg
unfolding bool_of
path_fields msg =
    ("localType", field msg "localType")
    ∷ ("remoteType", field msg "remoteType")
    ∷ ("usingTurn", bool (bool_of (field msg "usingTurn")))
    ∷ ("timeToIceMs", field msg "timeToIceMs")
    ∷ ("candidateType", field msg "candidateType")
    ∷ ("phase", field msg "phase")
    ∷ ("rtt", field msg "rtt")
    ∷ []

-- A plan through TURN for what a socket views of a client.
unfoldable pub forced_plan : Manager → ℕ → String → ℤ → Bool → Hub → TransportPlan
forced_plan m now sid client_id has_relay h = session_plan m now (record {
  client_viewer_count = count_client_viewers_by_client_id client_id h.conns h.client_viewer_links;
  admin_viewer_target_count = count_admin_targets sid h;
  has_stream_relay_grant = has_relay;
  force_turn = true;
})

unfoldable pub reported_client : Conn → Msg → ℤ
reported_client c msg = elim c.client [ none ↦ (to_int64 (field msg "clientId")).0 | some i ↦ i.id ]

-- After the report was recorded.
unfoldable pub path_hint : Env → Manager → String → Conn → ℤ → ℤ → Msg → World → World
unfolding forced_plan bool_of
path_hint env m sid c session_id client_id msg w =
    if not (bool_of (field msg "usingTurn"))
      && ((to_int64 (field msg "phase")).0 == pos 1)
      && kind_eq c.kind admin
    then say sid
        (("type", str "stream-transport-hint")
          ∷ ("sessionId", int session_id)
          ∷ ("clientId", int client_id)
          ∷ ("reason", str "p2p_phase1_failed")
          ∷ (
            "streamTransport",
            obj (to_obj (to_map (forced_plan m env.now sid client_id false w.hub))),
          )
          ∷ [])
        w
    else w

unfoldable pub handle_ice_path_report : Env → Manager → String → Conn → Msg → World → World
unfolding path_fields path_hint reported_client
handle_ice_path_report env m sid c msg w =
    let session_id = (to_int64 (field msg "sessionId")).0 in
    let client_id = reported_client c msg in
    if leb_ℤ session_id (pos 0) || leb_ℤ client_id (pos 0)
    then w
    else if not (has_viewing_session session_id client_id w.store)
    then w
    else path_hint env m sid c session_id client_id msg (record w {
      store = record_ice_path_report session_id client_id (path_fields msg) env.now w.store;
    })

unfoldable pub holds_relay : Env → Option AdminIdentity → Store → Bool
holds_relay env none s = false
holds_relay env (some a) s =
    s.up && (elim (get_active a.admin_id env.now s.stream_relay) [ none ↦ false | some g ↦ true ])

unfoldable pub handle_stream_transport_upgrade : Env → Manager → String → Conn → Msg → World → World
unfolding forced_plan holds_relay
handle_stream_transport_upgrade env m sid c msg w =
    let client_id = (to_int64 (field msg "clientId")).0 in
    if not (kind_eq c.kind admin) && not (kind_eq c.kind client)
    then w
    else say sid
        (success "stream-transport-upgrade" (
          (
            "streamTransport",
            obj (
                to_obj (
                  to_map
                    (forced_plan m env.now sid client_id (holds_relay env c.admin w.store) w.hub))),
          )
          ∷ []))
        w
