-- ===== src/Hub/Relay.antt =====
-- What clients and admins send on to each other (internal/hub/handlers.go).
pub mod Sender
use go_signing_server_anywhe.Prelude.{
  ℕ, zero, suc, ◌+◌, ◌-◌, ◌*◌, ◌/◌, ◌%◌, ◌^◌, ◌≤◌, ◌<◌, String, ◌≡◌, refl, sym, ap, ◌∙◌, ◌≢◌, ◌↔◌,
  ◌⊎◌, inl, inr, Bool, true, false, not, ◌&&◌, ◌||◌, Option, none, some, List, [], ◌∷◌, ◌++◌, map,
  arith, eq_iff, ltb, leb, nat_beq, if◌then◌else◌, ltb→lt, lt→ltb, leb→le, le→leb, nat_beq_iff,
  tests, Bool-cases, Option-cases, ℤ, pos, negsuc, pos_part, neg_part, sub_ℕ, ◌+ℤ◌, ◌-ℤ◌, ◌≤ℤ◌,
  ◌<ℤ◌, ltb_ℤ, leb_ℤ, int_beq, int_beq_iff, Eq, ◌==◌, ◌!=◌, nat_eq, int_eq, string_eq, string_beq,
  string_beq_iff, beq_refl, length, take, keep, count, length-append, length-keep-le,
  length-keep-count, keep-append, has, add, remove, IsSetList, has-add, has-remove, add-IsSetList,
  remove-IsSetList, remove_absent, length-remove, length-remove-le,
}
use go_signing_server_anywhe.Prelude.Map.{
  get, put, del, get-put, get-del, holds, get-holds, holds-put, holds-del, IsMap, put-IsMap,
  del-IsMap,
}
use Prim.Native.String.{◌++◌ as str_append}
use go_signing_server_anywhe.Text.{is_empty}
use go_signing_server_anywhe.Util.{to_int64, as_non_empty_string, msg_type, sprint_int}
use go_signing_server_anywhe.Hub.Types.{
  Hub, Conn, Conns, ConnKind, client, admin, ClientIdentity, AdminIdentity, ScreenSource, kind_eq,
  send_conn, send_all, update_conn,
}
use go_signing_server_anywhe.Hub.Types.Json.{
  Msg, Value, null, str, int, arr, obj, Items, nil, item, Fields, field, items, fields,
}
use go_signing_server_anywhe.Hub.Links.{targets}
use go_signing_server_anywhe.Hub.World.{World, Env, say, error_reply}
use go_signing_server_anywhe.Hub.Roster.{broadcast_clients}

-- One element of `sources`, where it is taken.
unfoldable pub screen_source : Value → Option ScreenSource
screen_source (obj fs) =
    let m = fields fs in
    let id = as_non_empty_string (field m "id") 128 in
    let name = as_non_empty_string (field m "name") 200 in
    let (n, ok) = to_int64 (field m "index") in
    if is_empty id || is_empty name
    then none
    else some
        (record { id = id; name = name; index = if ok && leb_ℤ (pos 0) n then some n else none })
screen_source _ = none

-- The loop, `room` being what is left of the eight places.
unfoldable pub screen_sources : ℕ → List Value → List ScreenSource
unfolding screen_source
screen_sources room [] = []
screen_sources room (v ∷ vs) =
    let skip = screen_sources room vs in
    let next = screen_sources (room - 1) vs in
    elim (screen_source v) [ none ↦ skip | some s ↦ if leb room 1 then s ∷ [] else s ∷ next ]

unfoldable pub source_items : Value → List Value
source_items (arr vs) = items vs
source_items _ = []

-- A conn that is a client's, with the identity that it signed in with.
unfoldable pub client_of : Conn → Option ClientIdentity
client_of c = if kind_eq c.kind client then c.client else none

-- The connection that a message names: by its socket, or else by a name.
unfoldable pub has_full_name : String → Conn → Bool
has_full_name name c =
    (elim c.client as (λ _. Bool) [ none ↦ false | some who ↦ who.full_name == name ])
    || (elim c.admin as (λ _. Bool) [ none ↦ false | some who ↦ who.full_name == name ])

unfoldable pub socket_by_name : String → Conns → Option String
unfolding has_full_name
socket_by_name name [] = none
socket_by_name name ((sid, c) ∷ rest) =
    if has_full_name name c then some sid else socket_by_name name rest

unfoldable pub relay_target : Msg → Conns → Option String
unfolding socket_by_name
relay_target msg conns =
    let sid = as_non_empty_string (field msg "targetSocketId") 200 in
    let name = as_non_empty_string (field msg "targetName") 200 in
    if not (is_empty sid)
    then (elim (get sid conns) [ none ↦ none | some _ ↦ some sid ])
    else if not (is_empty name)
    then socket_by_name name conns
    else none

-- relay["fromName"] = …, where the sender has signed in
unfoldable pub put_from_name : Conn → Msg → Msg
put_from_name c m = elim c.client [
  | some who ↦ put "fromName" (str who.full_name) m
  | none ↦ elim c.admin [ none ↦ m | some who ↦ put "fromName" (str who.full_name) m ]
]

-- The message that is passed on: the sender's, without its address, under the server's own marks.
unfoldable pub relayed : ℕ → String → Conn → Msg → Msg
unfolding put_from_name
relayed now from_sid from msg = put_from_name from (
    put "fromSocketId" (str from_sid) (
      put "timestamp" (int (pos now))
        (put "seq" (int (from.signal_seq +ℤ pos 1)) (del "targetName" (del "targetSocketId" msg)))))

-- `signalSeq++` and the message, which goes to the target alone.
unfoldable pub pass_on : Env → String → Conn → String → Msg → Hub → Hub
unfolding relayed
pass_on env from_sid from target msg h =
    send_conn target (relayed env.now from_sid from msg)
      (update_conn from_sid (λ c. record c { signal_seq = c.signal_seq +ℤ pos 1 }) h)

unfoldable pub index_text : Option ℤ → String
index_text none = ""
index_text (some n) = sprint_int n

-- screenSourcesSignature
unfoldable pub signature : List ScreenSource → String
unfolding index_text
signature [] = ""
signature (s ∷ ss) =
    str_append (str_append (str_append (index_text s.index) ":") (str_append s.id "|"))
      (signature ss)

unfoldable pub with_sources : List ScreenSource → Conn → Conn
with_sources ss c = record c { screen_sources = ss; screen_sources_sig = signature ss }

-- The message with the sources of a client's screens; the roster is sent again where they changed.
unfoldable pub take_sources : Env → String → Conn → ClientIdentity → Msg → World → World
unfolding screen_sources source_items signature with_sources
take_sources env from_sid from who msg w =
    let ss = screen_sources 8 (source_items (field msg "sources")) in
    let taken = record w { hub = update_conn from_sid (with_sources ss) w.hub } in
    if from.screen_sources_sig != signature ss
    then broadcast_clients env who.org_id taken
    else taken

unfoldable pub relay_to : Env → String → Conn → Msg → World → World
unfolding pass_on relay_target
relay_to env from_sid from msg w = elim (relay_target msg w.hub.conns) [
  | none ↦
      if msg_type msg == "client-screen-sources"
      then w
      else say from_sid (error_reply "TARGET_UNAVAILABLE") w
  | some target ↦ record w { hub = pass_on env from_sid from target msg w.hub }
]

unfoldable pub relay_signaling : Env → String → Conn → Msg → World → World
unfolding take_sources relay_to client_of
relay_signaling env from_sid from msg w =
    elim (if msg_type msg == "client-screen-sources" then client_of from else none) [
      | some who ↦ take_sources env from_sid from who msg w
      | none ↦ relay_to env from_sid from msg w
    ]

-- The device's last reading, without its type, under the server's own marks.
unfoldable pub snapshot : ClientIdentity → Msg → Msg
snapshot who msg =
    put "clientFullName" (str who.full_name) (put "clientId" (int who.id) (del "type" msg))

-- for k, v := range m { into[k] = v }
unfoldable pub put_all : Msg → Msg → Msg
put_all [] into = into
put_all ((k, v) ∷ m) into = put_all m (put k v into)

unfoldable pub device_info_relay : ClientIdentity → Msg → Msg
unfolding put_all
device_info_relay who snap = put_all (del "clientFullName" (del "clientId" snap)) (
    ("type", str "client-device-info-update")
    ∷ ("clientId", int who.id)
    ∷ ("clientFullName", str who.full_name)
    ∷ ("orgId", int who.org_id)
    ∷ [])

-- Who watches an organization.
unfoldable pub watches_org : ℤ → Conn → Bool
watches_org org_id c =
    if kind_eq c.kind admin
    then (elim c.admin [
      | none ↦ false
      | some a ↦ (a.role == "super_admin") || (a.org_id == org_id)
    ])
    else false

unfoldable pub watchers : ℤ → Conns → List String
unfolding watches_org
watchers org_id [] = []
watchers org_id ((sid, c) ∷ rest) =
    let more = watchers org_id rest in if watches_org org_id c then sid ∷ more else more

unfoldable pub handle_client_device_info : String → Conn → Msg → Hub → Hub
unfolding client_of snapshot device_info_relay watchers
handle_client_device_info sid c msg h = elim (client_of c) [
  | none ↦ h
  | some who ↦
      let snap = snapshot who msg in
      send_all (watchers who.org_id h.conns) (device_info_relay who snap)
        (update_conn sid (λ x. record x { device_info = snap }) h)
]

-- handleClientActiveScreen: the two hints go to every viewer of the sender's socket.
unfoldable pub hint_fields : String → Msg → Msg
hint_fields k m = elim (get k m) [ none ↦ [] | some v ↦ (k, v) ∷ [] ]

unfoldable pub handle_client_active_screen : String → Conn → Msg → Hub → Hub
unfolding client_of hint_fields
handle_client_active_screen from_sid from msg h = elim (client_of from) [
  | none ↦ h
  | some who ↦
      send_all (targets from_sid h.client_viewer_links)
        (("type", str "client-active-screen")
            ∷ ("fromSocketId", str from_sid)
            ∷ ("fromName", str who.full_name)
            ∷ hint_fields "screenIndex" msg
          ++ hint_fields "sourceId" msg)
        h
]
