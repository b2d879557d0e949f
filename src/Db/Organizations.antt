-- ===== src/Db/Organizations.antt =====
-- internal/db/store.go, admin_security.go, relay.go: the organizations, the accounts of their
-- administrators, and the settings that administrators change.
use Prim.Native.Char.{Char}
use go_signing_server_anywhe.Prelude.{
  ℕ, suc, ◌+◌, ◌*◌, String, Bool, true, false, not, ◌&&◌, ◌||◌, Option, none, some, List, [], ◌∷◌,
  ◌++◌, ltb, if◌then◌else◌, ℤ, pos, ◌==◌, nat_eq, int_eq, string_eq, length, keep,
}
use go_signing_server_anywhe.Prelude.Map.{put}
use go_signing_server_anywhe.Text.{trim_space, is_empty}
use go_signing_server_anywhe.Text.Case.{to_lower, text}
use go_signing_server_anywhe.Text.Bytes.{Bytes, bytes, url_encode}
use go_signing_server_anywhe.Auth.Password.{hash_password, verify_password}
use go_signing_server_anywhe.Hub.Types.Json.{Msg}
use go_signing_server_anywhe.StreamWindow.{Policy, normalize}
use go_signing_server_anywhe.Db.Tables.{Store, AdminRow, AdminSession, find_where}

-- The two columns of a row of organizations.
abbrev pub Org : Type 0
Org = ℤ × String

module _ (lower_rune : Char → Char) where
  unfoldable pub normalize_org_name : String → String
  normalize_org_name input = trim_space (to_lower lower_rune input)

  -- `none` is an error, and then the caller sees the zero row.
  unfoldable pub ensure_organization : String → Store → Option Org × Store
  unfolding normalize_org_name
  ensure_organization org_name s =
      let v = normalize_org_name org_name in
      let norm = if is_empty v then "default" else v in
      if s.up
      then (elim (find_where (λ o. o.1 == norm) s.organizations) [
        | some o ↦ (some o, s)
        | none ↦ (
          some (pos s.next_id, norm),
          record s {
            next_id = suc s.next_id;
            organizations = s.organizations ++ (pos s.next_id, norm) ∷ [];
          },
        )
      ])
      else (none, s)

  -- The outer `none` is an error, the inner one no such row.
  unfoldable pub get_organization_by_name : String → Store → Option (Option Org)
  unfolding normalize_org_name
  get_organization_by_name org_name s =
      let norm = normalize_org_name org_name in
      if is_empty norm
      then some none
      else if s.up
      then some (find_where (λ o. o.1 == norm) s.organizations)
      else none

  unfoldable pub get_admin_by_org_and_username : ℤ → String → Store → Option AdminRow
  get_admin_by_org_and_username org_id username s =
      if s.up
      then find_where (λ a. (a.org_id == org_id) && (a.username == to_lower lower_rune username))
          s.admins
      else none

  module _ (key : Bytes → Bytes → ℤ → ℤ → ℤ → ℕ → Option Bytes) (salt : Option Bytes) where
    -- One more row of admins; `none` is an error.
    unfoldable pub insert_admin : ℤ → String → String → String → Option Bytes → Store → Option Store
    insert_admin org_id username full_name role none s = none
    insert_admin org_id username full_name role (some hash) s =
        if s.up
        then some (record s {
          next_id = suc s.next_id;
          admins =
              s.admins
              ++ record {
                admin_id = pos s.next_id;
                org_id = org_id;
                username = to_lower lower_rune username;
                full_name = full_name;
                role = role;
                password_hash = text hash;
              }
                ∷ [];
        })
        else none

    unfoldable pub create_admin : ℤ → String → String → String → String → Store → Option Store
    unfolding insert_admin
    create_admin org_id username full_name password role s =
        insert_admin org_id username full_name role (hash_password key salt (bytes password)) s

    -- The error code where there is one. The username is looked up as it was written.
    unfoldable pub create_admin_account :
        ℤ → String → String → String → String → Store → Option String × Store
    unfolding create_admin
    create_admin_account org_id username full_name password role s =
        let exists =
          if s.up
          then find_where (λ a. (a.org_id == org_id) && (a.username == username)) s.admins
          else none in
        elim exists [
          | some a ↦ (some "DUPLICATE", s)
          | none ↦ (elim (create_admin org_id username full_name password role s) [
            | none ↦ (some "DB_ERROR", s)
            | some s' ↦ (none, s')
          ])
        ]

    -- The first administrator, where there is none; an error changes no more than the organization.
    unfoldable pub seed_admin : Option Org × Store → String → String → String → Store
    unfolding create_admin
    seed_admin (none, s) username full_name password = s
    seed_admin (some o, s) username full_name password =
        elim (create_admin o.0 username full_name password "super_admin" s) [
          | none ↦ s
          | some s' ↦ s'
        ]

    unfoldable pub seed_default_super_admin : String → String → String → String → Store → Store
    unfolding seed_admin ensure_organization
    seed_default_super_admin org_name username full_name password s =
        if not s.up || ltb 0 (length s.admins)
        then s
        else seed_admin (ensure_organization org_name s) username full_name password

-- VerifyAdminPassword
unfoldable pub verify_admin_password :
    (Bytes → Bytes → ℤ → ℤ → ℤ → ℕ → Option Bytes) → String → String → Bool
verify_admin_password key stored password = verify_password key (bytes password) (bytes stored)

-- 50 years in milliseconds
abbrev pub session_ms : ℕ
session_ms = 50 * 365 * 24 * 60 * 60 * 1000

-- The token and its expiry, and whether the row was inserted.
unfoldable pub create_admin_session : Bytes → ℤ → ℕ → Store → (AdminSession × Bool) × Store
create_admin_session drawn admin_id now s =
    let session : AdminSession = record {
      admin_id = admin_id;
      token = text (url_encode drawn);
      expires_at = now + session_ms;
    } in
    if s.up
    then ((session, true), record s { admin_sessions = session ∷ s.admin_sessions })
    else ((session, false), s)

-- `INNER JOIN admins`, each organization once
unfoldable pub has_admin : ℤ → List AdminRow → Bool
has_admin org_id [] = false
has_admin org_id (a ∷ rest) = (a.org_id == org_id) || has_admin org_id rest

module _ (by_name : List Org → List Org) where
  unfoldable pub get_organizations : Store → List Org
  get_organizations s = if s.up then by_name s.organizations else []

  unfoldable pub get_organizations_with_admins : Store → List Org
  unfolding has_admin
  get_organizations_with_admins s =
      if s.up then by_name (keep (λ o. has_admin o.0 s.admins) s.organizations) else []

-- GetOrgLeads, of one organization or of all.
unfoldable pub is_lead : Option ℤ → AdminRow → Bool
is_lead org_id a =
    ((a.role == "org_admin") || (a.role == "it_ops"))
    && (elim org_id [ none ↦ true | some id ↦ a.org_id == id ])

unfoldable pub get_org_leads : Option ℤ → Store → List AdminRow
unfolding is_lead
get_org_leads org_id s = if s.up then keep (is_lead org_id) s.admins else []

-- `none` is the nil map that an error leaves.
unfoldable pub get_admin_ui_features : Store → Option Msg
get_admin_ui_features s = if s.up then some s.ui_features else none

unfoldable pub put_features : Msg → Msg → Msg
put_features [] cur = cur
put_features ((k, v) ∷ patch) cur = put_features patch (put k v cur)

-- `cur[k] = v` on a nil map panics: `none`, unless the patch is empty.
unfoldable pub set_admin_ui_features_patch : Msg → Store → Option (Msg × Store)
unfolding get_admin_ui_features put_features
set_admin_ui_features_patch [] s = elim (get_admin_ui_features s) [
  | none ↦ some ([], s)
  | some cur ↦ some (cur, record s { ui_features = cur })
]
set_admin_ui_features_patch (kv ∷ patch) s = elim (get_admin_ui_features s) [
  | none ↦ none
  | some cur ↦
      let next = put_features (kv ∷ patch) cur in some (next, record s { ui_features = next })
]

-- SetOrgAdminStreamWindow
unfoldable pub set_org_admin_stream_window : Policy → Store → Option (Policy × Store)
set_org_admin_stream_window p s =
    let next = normalize p in
    if s.up then some (next, record s { stream_window = some next }) else none
