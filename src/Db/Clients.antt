-- ===== src/Db/Clients.antt =====
-- internal/db/store.go, relay.go: the registered clients and their viewing sessions.
use go_signing_server_anywhe.Prelude.{
  ℕ, suc, ◌-◌, String, Bool, false, ◌&&◌, ◌||◌, Option, none, some, List, [], ◌∷◌, ltb,
  if◌then◌else◌, ℤ, pos, ◌==◌, ◌!=◌, nat_eq, int_eq, string_eq, keep,
}
use go_signing_server_anywhe.Text.{trim_space, squeeze}
use go_signing_server_anywhe.Db.Tables.{ClientRow, Session, Store, update_where, find_where}
use go_signing_server_anywhe.Db.Transfers.{has_id}

-- JOIN organizations: whether a client's organization is there.
unfoldable pub joins : List (ℤ × String) → ClientRow → Bool
joins [] c = false
joins (o ∷ orgs) c = (o.0 == c.org_id) || joins orgs c

-- The two reads of one row; an error is read as no row.
unfoldable pub get_client_by_id : ℤ → Store → Option ClientRow
unfolding joins
get_client_by_id id s =
    if s.up then find_where (λ c. has_id id c && joins s.organizations c) s.clients else none

-- The two lists are in the order of the table: no statement here depends on their ORDER BY.
unfoldable pub get_clients_for_org : ℤ → Store → Option (List ClientRow)
get_clients_for_org org_id s =
    if s.up
    then some (
        keep (λ c. (c.org_id == org_id) && (c.disabled == pos 0) && joins s.organizations c)
          s.clients)
    else none

unfoldable pub get_all_clients_grouped : Store → Option (List ClientRow)
get_all_clients_grouped s =
    if s.up
    then some (keep (λ c. (c.disabled == pos 0) && joins s.organizations c) s.clients)
    else none

-- The socket of a device's row, as `*string`.
unfoldable pub get_socket_id_for_device : String → Store → Option String
get_socket_id_for_device device s =
    if s.up
    then (elim (find_where (λ c. c.device_id == device) s.clients) [
      | none ↦ none
      | some c ↦ c.socket_id
    ])
    else none

-- `socket_id = $1`, which no NULL satisfies
unfoldable pub on_socket : String → ClientRow → Bool
on_socket sid c = elim c.socket_id [ none ↦ false | some s ↦ s == sid ]

unfoldable pub update_client_heartbeat : String → ℕ → Store → Store
unfolding on_socket
update_client_heartbeat sid now s =
    if s.up
    then record s {
      clients = update_where (on_socket sid) (λ c. record c { last_heartbeat = now }) s.clients;
    }
    else s

unfoldable pub end_sessions : ℤ → List Session → List Session
end_sessions client_id =
    update_where
      (λ x. (x.client_id == client_id) && ((x.status == "pending") || (x.status == "active")))
      (λ x. record x { status = "ended" })

unfoldable pub go_offline : ℕ → ClientRow → ClientRow
go_offline now c = record c { status = "offline"; socket_id = none; last_offline_at = some now }

unfoldable pub set_client_offline_by_socket : String → ℕ → Store → Option ClientRow × Store
unfolding on_socket go_offline end_sessions
set_client_offline_by_socket sid now s =
    if s.up
    then (elim (find_where (on_socket sid) s.clients) [
      | none ↦ (none, s)
      | some c ↦ (
        some c,
        record s {
          clients = update_where (on_socket sid) (go_offline now) s.clients;
          sessions = end_sessions c.id s.sessions;
        },
      )
    ])
    else (none, s)

-- `status != 'offline' AND last_heartbeat < $1 AND last_heartbeat > 0`
unfoldable pub is_stale_client : ℕ → ClientRow → Bool
is_stale_client cutoff c =
    (c.status != "offline") && ltb c.last_heartbeat cutoff && ltb 0 c.last_heartbeat

unfoldable pub end_all_sessions : List ClientRow → List Session → List Session
unfolding end_sessions
end_all_sessions [] xs = xs
end_all_sessions (c ∷ cs) xs = end_all_sessions cs (end_sessions c.id xs)

unfoldable pub cleanup_stale_clients : ℕ → ℕ → Store → List ClientRow × Store
unfolding is_stale_client go_offline end_all_sessions
cleanup_stale_clients timeout now s =
    let cutoff = now - timeout in
    let stale = keep (is_stale_client cutoff) s.clients in
    if s.up
    then (
      stale,
      record s {
        clients = update_where (is_stale_client cutoff) (go_offline now) s.clients;
        sessions = end_all_sessions stale s.sessions;
      },
    )
    else ([], s)

unfoldable pub disable_client : ℤ → Store → Store
disable_client id s =
    if s.up
    then record s {
      clients =
          update_where (has_id id)
            (λ c. record c { disabled = pos 1; status = "offline"; socket_id = none }) s.clients;
    }
    else s

-- The id of the new session, 0 where the insert fails.
unfoldable pub create_session : ℤ → ℤ → Option ℤ → Store → ℤ × Store
create_session org_id client_id admin_id s =
    if s.up
    then (
      pos s.next_id,
      record s {
        next_id = suc s.next_id;
        sessions =
            record {
              id = pos s.next_id;
              org_id = org_id;
              client_id = client_id;
              admin_id = admin_id;
              status = "pending";
            }
            ∷ s.sessions;
      },
    )
    else (pos 0, s)

unfoldable pub organization_name : ℤ → List (ℤ × String) → Option String
organization_name id [] = none
organization_name id ((j, name) ∷ rest) = if j == id then some name else organization_name id rest

-- normalizeDisplayName
unfoldable pub normalize_display_name : String → String
unfolding squeeze
normalize_display_name name = squeeze false (trim_space name)

-- The row that a failed query leaves: the caller drops the error, not the row.
abbrev pub zero_row : ClientRow
zero_row = record {
  id = pos 0;
  org_id = pos 0;
  full_name = "";
  status = "";
  socket_id = none;
  pending_org_id = none;
  claimed_org_name = none;
  last_heartbeat = 0;
  last_online_at = none;
  last_offline_at = none;
  disabled = pos 0;
  device_id = "";
}

unfoldable pub get_client_by_org_and_full_name : ℤ → String → Store → Option ClientRow
unfolding normalize_display_name
get_client_by_org_and_full_name org_id name s =
    if s.up
    then find_where
        (λ c.
          (c.org_id == org_id)
          && (c.full_name == normalize_display_name name)
          && (c.disabled == pos 0))
        s.clients
    else some zero_row

-- FindOnlineClientByOrgAndFullName; here an error is no row.
unfoldable pub find_online_client : ℤ → String → Store → Option ClientRow
find_online_client org_id name s =
    if s.up
    then (elim (get_client_by_org_and_full_name org_id name s) [
      | none ↦ none
      | some c ↦ if c.status == "offline" then none else some c
    ])
    else none
