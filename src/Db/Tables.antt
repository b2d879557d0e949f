-- ===== src/Db/Tables.antt =====
-- The tables of the Postgres schema that internal/db reads and writes, as lists of rows in no
-- particular order. Times are milliseconds. A statement fails exactly while the database is down,
-- which `up` says; a transaction is one step.
use go_signing_server_anywhe.Prelude.{
  ℕ, String, Bool, Option, none, some, List, [], ◌∷◌, if◌then◌else◌, ℤ, pos, ◌==◌, nat_eq, int_eq,
  string_eq,
}
use go_signing_server_anywhe.Hub.Types.Json.{Msg}
use go_signing_server_anywhe.StreamWindow.{Policy}

pub record ClientRow : Type 0 where
  pub id : ℤ
  pub org_id : ℤ
  pub full_name : String
  pub status : String
  pub socket_id : Option String
  pub pending_org_id : Option ℤ
  pub claimed_org_name : Option String
  pub last_heartbeat : ℕ
  pub last_online_at : Option ℕ
  pub last_offline_at : Option ℕ
  pub disabled : ℤ
  pub device_id : String

pub record TransferRow : Type 0 where
  pub id : ℤ
  pub client_id : ℤ
  pub from_org_id : ℤ
  pub to_org_id : ℤ
  pub requested_by_admin_id : ℤ
  pub approved_by_admin_id : Option ℤ
  pub status : String
  pub created_at : ℕ
  pub updated_at : ℕ

-- remote_access_requests and stream_relay_requests have the same columns.
pub record GrantRow : Type 0 where
  pub id : ℤ
  pub admin_id : ℤ
  pub org_id : ℤ
  pub requester_ip : String
  pub reason : String
  pub duration_hours : ℤ
  pub status : String
  pub approved_by : Option ℤ
  pub expires_at : Option ℤ

pub record AdminRow : Type 0 where
  pub admin_id : ℤ
  pub org_id : ℤ
  pub username : String
  pub full_name : String
  pub role : String
  pub password_hash : String

pub record AdminSession : Type 0 where
  pub admin_id : ℤ
  pub token : String
  pub expires_at : ℕ

pub record Session : Type 0 where
  pub id : ℤ
  pub org_id : ℤ
  pub client_id : ℤ
  pub admin_id : Option ℤ
  pub status : String

pub record CallEvent : Type 0 where
  pub client_id : ℤ
  pub typ : String
  pub platform : String
  pub occurred_at : String
  pub duration_ms : Option ℤ
  pub received_at : ℕ

-- `fields` are the columns that come from the message.
pub record IcePathReport : Type 0 where
  pub session_id : ℤ
  pub client_id : ℤ
  pub reported : Msg
  pub reported_at : ℕ

-- `ui_features` and `stream_window` are the two entries of app_settings, decoded.
-- `next_id` is the sequence from which every table takes its keys.
pub record Store : Type 0 where
  pub up : Bool
  pub next_id : ℕ
  pub clients : List ClientRow
  pub transfers : List TransferRow
  pub admins : List AdminRow
  pub admin_sessions : List AdminSession
  pub sessions : List Session
  pub remote_access : List GrantRow
  pub stream_relay : List GrantRow
  pub organizations : List (ℤ × String)
  pub ui_features : Msg
  pub stream_window : Option Policy
  pub call_events : List CallEvent
  pub ice_path_reports : List IcePathReport

-- UPDATE … SET … WHERE …
unfoldable pub update_where {ℓ} : {A : Type ℓ} → (A → Bool) → (A → A) → List A → List A
update_where p f [] = []
update_where p f (x ∷ xs) = (if p x then f x else x) ∷ update_where p f xs

-- SELECT … WHERE … , its first row
unfoldable pub find_where {ℓ} : {A : Type ℓ} → (A → Bool) → List A → Option A
find_where p [] = none
find_where p (x ∷ xs) = if p x then some x else find_where p xs

-- The column of a boolean, an int that is 0 or 1.
unfoldable pub is_disabled : ClientRow → Bool
is_disabled c = c.disabled == pos 1
