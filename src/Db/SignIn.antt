-- ===== src/Db/SignIn.antt =====
-- internal/db/store.go: a client signs in with its device, the restart of the server, and what
-- clients report.
pub mod Device
use Prim.Native.Char.{Char}
use go_signing_server_anywhe.Prelude.{
  ℕ, zero, suc, ◌+◌, ◌-◌, ◌*◌, ◌/◌, ◌%◌, ◌^◌, ◌≤◌, ◌<◌, String, ◌≡◌, refl, sym, ap, ◌∙◌, ◌≢◌, ◌↔◌,
  ◌⊎◌, inl, inr, Bool, true, false, not, ◌&&◌, ◌||◌, Option, none, some, List, [], ◌∷◌, ◌++◌, map,
  arith, eq_iff, ltb, leb, nat_beq, if◌then◌else◌, ltb→lt, lt→ltb, leb→le, le→leb, nat_beq_iff,
  tests, Bool-cases, Option-cases, ℤ, pos, negsuc, pos_part, neg_part, sub_ℕ, ◌+ℤ◌, ◌-ℤ◌, ◌≤ℤ◌,
  ◌<ℤ◌, ltb_ℤ, leb_ℤ, int_beq, int_beq_iff, Eq, ◌==◌, ◌!=◌, nat_eq, int_eq, string_eq, string_beq,
  string_beq_iff, beq_refl, length, take, keep, count, length-append, length-keep-le,
  length-keep-count, keep-append, has, add, remove, IsSetList, has-add, has-remove, add-IsSetList,
  remove-IsSetList, remove_absent, length-remove, length-remove-le,
}
use go_signing_server_anywhe.Text.{trim_space, is_empty, byte_len}
use go_signing_server_anywhe.Hub.Types.Json.{Msg}
use go_signing_server_anywhe.Db.Tables.{
  Store, Session, ClientRow, CallEvent, IcePathReport, find_where, update_where,
}
use go_signing_server_anywhe.Db.Clients.{normalize_display_name}
use go_signing_server_anywhe.Db.Organizations.{Org, ensure_organization, get_organization_by_name}

-- The columns of the signed-in client that callers use.
pub record SignedClient : Type 0 where
  pub id : ℤ
  pub org_id : ℤ
  pub full_name : String
  pub status : String

-- UpsertClientResult; an error of the database is a refusal with an empty code.
pub data UpsertResult : Type 0 where
  signed_in : SignedClient → Option ℤ → UpsertResult
  refused : String → String → UpsertResult

unfoldable pub of_device : String → ClientRow → Bool
of_device dev c = c.device_id == dev

-- The organization that the row gets: one that waits goes first.
unfoldable pub apply_org : ClientRow → ℤ
apply_org c = elim c.pending_org_id [
  | none ↦ c.org_id
  | some id ↦ if ltb_ℤ (pos 0) id then id else c.org_id
]

unfoldable pub claimed_name : ClientRow → String → Option String
claimed_name c requested =
    let typed = if is_empty requested then c.claimed_org_name else some requested in
    elim c.pending_org_id [ none ↦ typed | some id ↦ if ltb_ℤ (pos 0) id then none else typed ]

-- UPDATE clients SET … of a known device.
unfoldable pub signed_row : ℤ → Option String → String → String → ℕ → ClientRow → ClientRow
signed_row org_id claimed name socket_id now c = record c {
  org_id = org_id;
  pending_org_id = none;
  full_name = name;
  status = "sharing";
  socket_id = some socket_id;
  last_heartbeat = now;
  last_online_at = elim c.last_online_at [ none ↦ some now | some t ↦ some t ];
  claimed_org_name = claimed;
}

unfoldable pub update_client :
    ClientRow → String → String → String → String → ℕ → Store → UpsertResult × Store
unfolding apply_org claimed_name signed_row of_device
update_client c dev name requested socket_id now s = (
  signed_in (record { id = c.id; org_id = apply_org c; full_name = name; status = "sharing" })
      (if c.org_id == apply_org c then none else some c.org_id),
  record s {
    clients =
        update_where (of_device dev)
          (signed_row (apply_org c) (claimed_name c requested) name socket_id now) s.clients;
  },
)

unfoldable pub insert_client :
    ℤ → String → String → String → String → ℕ → Store → UpsertResult × Store
insert_client org_id dev name requested socket_id now s = (
  signed_in (record { id = pos s.next_id; org_id = org_id; full_name = name; status = "sharing" })
      none,
  record s {
    next_id = suc s.next_id;
    clients =
        s.clients
        ++ record {
          id = pos s.next_id;
          org_id = org_id;
          full_name = name;
          status = "sharing";
          socket_id = some socket_id;
          pending_org_id = none;
          claimed_org_name = some requested;
          last_heartbeat = now;
          last_online_at = some now;
          last_offline_at = none;
          disabled = pos 0;
          device_id = dev;
        }
          ∷ [];
  },
)

-- The organization of the name, or the one called `default`; `none` is an error.
unfoldable pub default_org : Option Org → (Option Org × Store) → Store → Option Org × Store
default_org (some o) made s = (some o, s)
default_org none made s = made

-- With the row of the device that was found.
unfoldable pub upsert_row :
    Option ClientRow → ℤ → String → String → String → String → ℕ → Store → UpsertResult × Store
unfolding update_client insert_client
upsert_row none org_id dev name requested socket_id now s =
    insert_client org_id dev name requested socket_id now s
upsert_row (some c) org_id dev name requested socket_id now s =
    if c.disabled == pos 1
    then (refused "CLIENT_DISABLED" "Client has been disabled", s)
    else update_client c dev name requested socket_id now s

unfoldable pub upsert_device :
    Option Org × Store → String → String → String → String → ℕ → UpsertResult × Store
unfolding upsert_row
upsert_device (none, s) dev name requested socket_id now = (refused "" "", s)
upsert_device (some o, s) dev name requested socket_id now =
    upsert_row (find_where (of_device dev) s.clients) o.0 dev name requested socket_id now s

unfoldable pub upsert_client_auth :
    (Char → Char) → String → String → String → String → ℕ → Store → UpsertResult × Store
unfolding upsert_device default_org
upsert_client_auth lower_rune device_id org_name full_name socket_id now s =
    let name = normalize_display_name full_name in
    let dev = trim_space device_id in
    if is_empty name || ltb (byte_len dev) 8
    then (refused "INVALID_INPUT" "Invalid client identity", s)
    else elim (get_organization_by_name lower_rune org_name s) [
      | none ↦ (refused "" "", s)
      | some org ↦
          if s.up
          then upsert_device (default_org org (ensure_organization lower_rune "default" s) s) dev
              name (trim_space org_name) socket_id now
          else (refused "" "", s)
    ]

unfoldable pub get_client_id_by_device_id : String → Store → ℤ
get_client_id_by_device_id dev s =
    if s.up
    then (elim (find_where (λ c. (c.device_id == dev) && (c.disabled == pos 0)) s.clients) [
      | none ↦ pos 0
      | some c ↦ c.id
    ])
    else pos 0

unfoldable pub is_open_session : Session → Bool
is_open_session x = (x.status == "pending") || (x.status == "active")

unfoldable pub end_open_sessions : List Session → List Session
unfolding is_open_session
end_open_sessions xs = update_where is_open_session (λ x. record x { status = "ended" }) xs

unfoldable pub reset_all_on_startup : Store → Store
unfolding end_open_sessions
reset_all_on_startup s =
    if s.up
    then record s {
      clients =
          map {A = ClientRow} (λ c. record c { status = "offline"; socket_id = none }) s.clients;
      sessions = end_open_sessions s.sessions;
    }
    else s

unfoldable pub has_socket : ClientRow → Bool
has_socket c = elim c.socket_id [ none ↦ false | some sid ↦ true ]

unfoldable pub soft_reconcile_on_startup : Store → Store
unfolding end_open_sessions has_socket
soft_reconcile_on_startup s =
    if s.up
    then record s {
      clients = update_where has_socket (λ c. record c { socket_id = none }) s.clients;
      sessions = end_open_sessions s.sessions;
    }
    else s

unfoldable pub insert_call_event : ℤ → String → String → String → Option ℤ → ℕ → Store → Store
insert_call_event client_id typ platform occurred_at duration_ms now s =
    if s.up
    then record s {
      call_events =
          s.call_events
          ++ record {
            client_id = client_id;
            typ = typ;
            platform = platform;
            occurred_at = occurred_at;
            duration_ms = duration_ms;
            received_at = now;
          }
            ∷ [];
    }
    else s

-- GetViewingSessionForClient: an error leaves a map that is not nil.
unfoldable pub has_viewing_session : ℤ → ℤ → Store → Bool
has_viewing_session session_id client_id s =
    if s.up
    then (elim (find_where (λ x. (x.id == session_id) && (x.client_id == client_id)) s.sessions) [
      | none ↦ false
      | some x ↦ true
    ])
    else true

unfoldable pub record_ice_path_report : ℤ → ℤ → Msg → ℕ → Store → Store
record_ice_path_report session_id client_id reported now s =
    if s.up
    then record s {
      ice_path_reports =
          s.ice_path_reports
          ++ record {
            session_id = session_id;
            client_id = client_id;
            reported = reported;
            reported_at = now;
          }
            ∷ [];
    }
    else s

unfoldable pub set_client_pending_org : ℤ → ℤ → Store → Store
set_client_pending_org client_id org_id s =
    if s.up
    then record s {
      clients =
          update_where (λ c. c.id == client_id) (λ c. record c { pending_org_id = some org_id })
            s.clients;
    }
    else s

unfoldable pub sync_client_socket_id : ℤ → String → Store → Store
sync_client_socket_id client_id socket_id s =
    if s.up
    then record s {
      clients =
          update_where (λ c. c.id == client_id) (λ c. record c { socket_id = some socket_id })
            s.clients;
    }
    else s
