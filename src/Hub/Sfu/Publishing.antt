-- ===== src/Hub/Sfu/Publishing.antt =====
-- internal/hub/sfu_handlers.go: the registration of publishers and the refresh of transports.

use go_signing_server_anywhe.Prelude.{
  ℕ, String, Bool, false, ◌&&◌, ◌||◌, Option, none, some, List, [], ◌∷◌, ◌++◌, if◌then◌else◌, ℤ,
  pos, ◌==◌, nat_eq, int_eq, string_eq,
}
use go_signing_server_anywhe.Prelude.Map.{get, put, holds}
use go_signing_server_anywhe.Text.{is_empty}
use go_signing_server_anywhe.Util.{as_non_empty_string, to_int64}
use go_signing_server_anywhe.Hub.Types.{
  Hub, Conn, Conns, LinkMap, client, ClientIdentity, SfuPublisherState, send_conn, send_all,
  kind_eq,
}
use go_signing_server_anywhe.Hub.Types.Json.{Msg, str, int, obj, field}
use go_signing_server_anywhe.Hub.World.{refusal, success}
use go_signing_server_anywhe.Hub.Roster.{to_obj}
use go_signing_server_anywhe.Hub.Links.{serves_client}
use go_signing_server_anywhe.Hub.Transport.{
  count_client_viewers_by_client_id, to_map, client_track_name, enrich_transport_plan,
}
use go_signing_server_anywhe.Ice.Plan.{Manager, TransportPlan, session_plan}
use go_signing_server_anywhe.Ice.Pool.{mark_failure}
use go_signing_server_anywhe.Hub.Sfu.{parse_provider_lane}

unfoldable pub publisher_ready : ℤ → SfuPublisherState → Msg
publisher_ready id p =
    ("type", str "sfu-publisher-ready")
    ∷ ("clientId", int id)
    ∷ ("publisherSessionId", str p.session_id)
    ∷ ("trackName", str p.track_name)
    ∷ ("providerLane", int p.provider_lane)
    ∷ []

-- The admins that view a socket of the client, socket by socket.
unfoldable pub viewers_of : ℤ → Conns → LinkMap → List String
viewers_of id conns [] = []
viewers_of id conns ((sid, admins) ∷ rest) =
    let more = viewers_of id conns rest in
    if serves_client id (get sid conns) then admins ++ more else more

-- broadcastSfuPublisherReady
unfoldable pub broadcast_sfu_publisher_ready : ℤ → SfuPublisherState → Hub → Hub
unfolding publisher_ready viewers_of
broadcast_sfu_publisher_ready id p h =
    send_all (viewers_of id h.conns h.client_viewer_links) (publisher_ready id p) h

unfoldable pub registered_lane : ℤ × Bool → ℤ
registered_lane (n, ok) = if ok && ((n == pos 1) || (n == pos 2)) then n else pos 1

abbrev pub publisher_response : String
publisher_response = "sfu-register-publisher-response"

-- setPublisher, the answer, and the broadcast.
unfoldable pub register_publisher : String → ℤ → SfuPublisherState → Hub → Hub
unfolding broadcast_sfu_publisher_ready
register_publisher sid id p h = broadcast_sfu_publisher_ready id p (
    send_conn sid
      (success publisher_response (
        ("clientId", int id)
        ∷ ("sessionId", str p.session_id)
        ∷ ("trackName", str p.track_name)
        ∷ ("providerLane", int p.provider_lane)
        ∷ []))
      (record h { sfu = put id p h.sfu }))

unfoldable pub register_as : String → Option ClientIdentity → Msg → Hub → Hub
unfolding registered_lane register_publisher
register_as sid none msg h = send_conn sid (refusal publisher_response "FORBIDDEN") h
register_as sid (some i) msg h =
    let session_id = as_non_empty_string (field msg "sessionId") 128 in
    let asked = as_non_empty_string (field msg "trackName") 128 in
    if is_empty session_id
    then send_conn sid (refusal publisher_response "MISSING_SESSION") h
    else register_publisher sid i.id
        (record {
          session_id = session_id;
          track_name = if is_empty asked then client_track_name i.id else asked;
          provider_lane = registered_lane (to_int64 (field msg "providerLane"));
        })
        h

unfoldable pub handle_sfu_register_publisher : String → Conn → Msg → Hub → Hub
unfolding register_as
handle_sfu_register_publisher sid c msg h =
    if kind_eq c.kind client
    then register_as sid c.client msg h
    else send_conn sid (refusal publisher_response "FORBIDDEN") h

unfoldable pub transport_hint : ℤ → String → TransportPlan → Msg
transport_hint id reason plan =
    ("type", str "stream-transport-hint")
    ∷ ("clientId", int id)
    ∷ ("reason", str reason)
    ∷ ("streamTransport", obj (to_obj (to_map plan)))
    ∷ []

-- One socket of the client with the admins that view it: each live one is told, and each time
-- the client is.
unfoldable pub refresh_admins : Manager → ℕ → ℤ → String → String → List String → Hub → Hub
unfolding transport_hint
refresh_admins m now id reason client_sid [] h = h
refresh_admins m now id reason client_sid (sid ∷ sids) h =
    let plan = session_plan m now (record {
      client_viewer_count = count_client_viewers_by_client_id id h.conns h.client_viewer_links;
      admin_viewer_target_count = 0;
      has_stream_relay_grant = false;
      force_turn = false;
    }) in
    let told =
      send_conn client_sid
        (transport_hint id reason (enrich_transport_plan m now h id "publisher" plan))
        (send_conn sid (transport_hint id reason plan) h) in
    refresh_admins m now id reason client_sid sids (if holds sid h.conns then told else h)

unfoldable pub refresh_sockets : Manager → ℕ → ℤ → String → LinkMap → Hub → Hub
unfolding refresh_admins
refresh_sockets m now id reason [] h = h
refresh_sockets m now id reason ((client_sid, admins) ∷ rest) h =
    refresh_sockets m now id reason rest (
      if serves_client id (get client_sid h.conns)
      then refresh_admins m now id reason client_sid admins h
      else h)

unfoldable pub push_transport_refresh_for_client : Manager → ℕ → ℤ → String → Hub → Hub
unfolding refresh_sockets
push_transport_refresh_for_client m now id reason h =
    refresh_sockets m now id reason h.client_viewer_links h

unfoldable pub push_for : Manager → ℕ → Conn → Hub → Hub
push_for m now c h =
    if kind_eq c.kind client
    then (elim c.client [
      | none ↦ h
      | some i ↦ push_transport_refresh_for_client m now i.id "media_provider_failed" h
    ])
    else h

unfoldable pub handle_media_provider_failed : ℕ → Manager → Conn → Msg → Hub → Manager × Hub
unfolding push_for
handle_media_provider_failed now m c msg h =
    let lane = parse_provider_lane msg in
    let m' : Manager = record m { pool = mark_failure now lane m.pool } in
    if lane == 0 then (m, h) else (m', push_for m' now c h)
