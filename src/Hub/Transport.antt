-- ===== src/Hub/Transport.antt =====
-- The transport plans in the hub's messages (internal/hub/stream_transport.go, sfu_handlers.go).
use go_signing_server_anywhe.Prelude.{
  ℕ, ◌+◌, String, Bool, true, false, Option, none, some, [], ◌∷◌, ◌++◌, map, if◌then◌else◌, ℤ, pos,
  ltb_ℤ, ◌==◌, nat_eq, int_eq, string_eq, length,
}
use go_signing_server_anywhe.Prelude.Map.{get}
use Prim.Native.String.{◌++◌ as str_append}
use go_signing_server_anywhe.Util.{sprint_int}
use go_signing_server_anywhe.Hub.Types.{Hub, Conns, LinkMap, SfuPublisherState}
use go_signing_server_anywhe.Hub.Types.Json.{Msg, Value, str, bool, int, arr, obj}
use go_signing_server_anywhe.Hub.Links.{serves_client, count_admin_targets}
use go_signing_server_anywhe.Hub.Roster.{to_obj, to_arr}
use go_signing_server_anywhe.Ice.Plan.{
  StreamMode, p2p_preferred, turn_relay, sfu, SfuHint, TransportPlan, Manager, session_plan,
}
use go_signing_server_anywhe.Ice.Pool.{available_realtime_lanes}
use go_signing_server_anywhe.Ice.Plan.Servers.{
  ServerEntry, url, any_urls, string_urls, other_urls, string_of,
}
use go_signing_server_anywhe.Text.{is_empty}

-- The sum over the sockets of a client of the admins that view it.
unfoldable pub count_client_viewers_by_client_id : ℤ → Conns → LinkMap → ℕ
count_client_viewers_by_client_id id conns [] = 0
count_client_viewers_by_client_id id conns ((sid, admins) ∷ rest) =
    let n = count_client_viewers_by_client_id id conns rest in
    if serves_client id (get sid conns) then length admins + n else n

unfoldable pub session_transport_plan : Manager → ℕ → String → ℤ → Bool → Bool → Hub → TransportPlan
unfolding count_client_viewers_by_client_id
session_transport_plan m now admin_sid client_id already_viewing has_relay h =
    let vc = count_client_viewers_by_client_id client_id h.conns h.client_viewer_links in
    let at = count_admin_targets admin_sid h in
    session_plan m now (record {
      client_viewer_count = if already_viewing then vc else vc + 1;
      admin_viewer_target_count = if already_viewing then at else at + 1;
      has_stream_relay_grant = has_relay;
      force_turn = false;
    })

unfoldable pub client_track_name : ℤ → String
client_track_name id = str_append (str_append "client-" (sprint_int id)) "-screen"

-- What a viewer is told besides: the session of the publisher, and its lane.
unfoldable pub with_publisher : Option SfuPublisherState → SfuHint → SfuHint
with_publisher none h = h
with_publisher (some p) h = record h {
  publisher_session_id = p.session_id;
  provider_lane = if ltb_ℤ (pos 0) p.provider_lane then p.provider_lane else h.provider_lane;
}

unfoldable pub enrich_hint : Manager → ℕ → Hub → ℤ → String → SfuHint → SfuHint
unfolding with_publisher client_track_name
enrich_hint m now h client_id role hint =
    let named = record hint {
      role = role;
      track_name = client_track_name client_id;
      publisher_client_id = client_id;
      provider_lane = pos m.pool.prefer;
      provider_lanes = available_realtime_lanes m.pool now m.pool.lanes;
    } in
    if role == "subscriber" then with_publisher (get client_id h.sfu) named else named

-- A plan in another mode carries no hint.
unfoldable pub enrich_transport_plan :
    Manager → ℕ → Hub → ℤ → String → TransportPlan → TransportPlan
unfolding enrich_hint
enrich_transport_plan m now h client_id role plan = elim plan.hint [
  | none ↦ plan
  | some hint ↦ record plan { hint = some (enrich_hint m now h client_id role hint) }
]

unfoldable pub mode_name : StreamMode → String
mode_name p2p_preferred = "p2p-preferred"
mode_name turn_relay = "turn-relay"
mode_name sfu = "sfu"

-- A field with `omitempty`.
unfoldable pub text_field : String → String → Msg
text_field k s = if is_empty s then [] else (k, str s) ∷ []

unfoldable pub number_field : String → ℤ → Msg
number_field k n = if n == pos 0 then [] else (k, int n) ∷ []

unfoldable pub entry_value : ServerEntry → Value
unfolding text_field to_obj to_arr
entry_value e =
    let urls = elim e.urls as (λ _. Value) [
      | url u ↦ str u
      | any_urls us ↦ arr (to_arr (map (λ u. str (string_of u)) us))
      | string_urls us ↦ arr (to_arr (map str us))
      | other_urls ↦ str ""
    ] in
    obj (
      to_obj
        (("urls", urls) ∷ text_field "username" e.username ++ text_field "credential" e.credential))

unfoldable pub hint_value : SfuHint → Value
unfolding text_field number_field to_obj to_arr mode_name
hint_value h =
    let lanes = elim h.provider_lanes as (λ _. Msg) [
      | [] ↦ []
      | l ∷ ls ↦ ("providerLanes", arr (to_arr (map (λ n. int (pos n)) (l ∷ ls)))) ∷ []
    ] in
    obj (
      to_obj (
        ("enabled", bool true) ∷ text_field "role" h.role
        ++ text_field "trackName" h.track_name
        ++ text_field "publisherSessionId" h.publisher_session_id
        ++ number_field "publisherClientId" h.publisher_client_id
        ++ number_field "providerLane" h.provider_lane
        ++ lanes
        ++ ("fallbackModes", arr (to_arr (map (λ x. str (mode_name x)) h.fallback_modes)))
          ∷ ("stunUrl", str "stun:stun.cloudflare.com:3478")
          ∷ []))

-- TransportPlan.ToMap
unfoldable pub to_map : TransportPlan → Msg
unfolding hint_value entry_value
to_map p =
    ("version", int (pos 1))
      ∷ ("mode", str (mode_name p.mode))
      ∷ ("reason", str p.reason)
      ∷ ("phaseOneMs", int (pos p.phase_one_ms))
      ∷ ("iceServers", arr (to_arr (map entry_value p.ice_servers)))
      ∷ ("iceServersStunOnly", arr (to_arr (map entry_value p.ice_servers_stun)))
      ∷ ("iceServersFull", arr (to_arr (map entry_value p.ice_servers_full)))
      ∷ number_field "viewerCount" (pos p.viewer_count)
    ++ number_field "adminTargetCount" (pos p.admin_target_count)
    ++ (elim p.hint as (λ _. Msg) [ none ↦ [] | some h ↦ ("sfu", hint_value h) ∷ [] ])

abbrev pub stream_transport_fields : TransportPlan → Msg
stream_transport_fields plan = ("streamTransport", obj (to_obj (to_map plan))) ∷ []
