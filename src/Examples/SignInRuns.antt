-- ===== src/Examples/SignInRuns.antt =====
-- Runs of the sign-in of clients, administrators and senders of events, and of the dispatch.

use go_signing_server_anywhe.Prelude.{
  ℕ, zero, suc, ◌%◌, ◌<◌, String, ◌≡◌, refl, ◌↔◌, ◌⊎◌, inl, true, false, not, ◌||◌, Option, none,
  some, List, [], ◌∷◌, ◌++◌, arith, if◌then◌else◌, ℤ, pos, negsuc, ◌+ℤ◌, ◌≤ℤ◌, ◌<ℤ◌, ◌==◌, nat_eq,
  int_eq, string_eq, string_beq, length, keep, has,
}
use go_signing_server_anywhe.Prelude.Map.{get}
use go_signing_server_anywhe.Text.{
  is_empty, codes, parse_int, trim_space, trim_left, trim_right, is_space, byte_len, width,
}
use go_signing_server_anywhe.Text.Bytes.{
  Bytes, AreBytes, bytes, bytes_beq, utf8, split, extend, url_encode, url_decode, url_decode_groups,
  symbol, is_break,
}
use go_signing_server_anywhe.Text.Case.{contains, split_text}
use go_signing_server_anywhe.Util.{
  sprint_int, itoa, msg_type, as_token, as_non_empty_string, clean_string, decimal, digit,
}
use go_signing_server_anywhe.Util.Decimal.{parse_int-itoa}
use go_signing_server_anywhe.Auth.Ingest.{
  IngestPayload, accepted, marshal, wrap_int64, token_signature, sign_ingest_token, check_payload,
  check_raw, check_parts, verify_ingest_token,
}
use go_signing_server_anywhe.Auth.Ingest.Signed.{
  verify_ingest_token-sign_ingest_token, verify_ingest_token-accepted,
}
use go_signing_server_anywhe.Auth.Password.{hash_password, verify_password, key_len}
use go_signing_server_anywhe.Auth.Password.Derived.{
  server_scrypt_key, verify_password-hash_password,
}
use go_signing_server_anywhe.Config.{parse_origins}
use go_signing_server_anywhe.Config.Flags.{any_origin, names_origin, origin_allowed-parse_origins}
use go_signing_server_anywhe.Iputil.{is_on_office_network, office_network_label, Octets}
use go_signing_server_anywhe.Iputil.Office.{office_network_label-is_on_office_network}
use go_signing_server_anywhe.Ice.Cloudflare.{filter_port53}
use go_signing_server_anywhe.Ice.Cloudflare.Filter.{all_written, all_expanded, filter_port53-exact}
use go_signing_server_anywhe.Ice.Plan.Servers.{ServerEntry, url, any_urls}
use go_signing_server_anywhe.Db.Tables.{AdminRow}
use go_signing_server_anywhe.Db.Organizations.{create_admin_session}
use go_signing_server_anywhe.Db.SignIn.{upsert_client_auth}
use go_signing_server_anywhe.Db.SignIn.Device.{KeepsRows, upsert_client_auth-rows}
use go_signing_server_anywhe.Hub.Types.{Config}
use go_signing_server_anywhe.Hub.Types.Json.{Msg, str, arr, obj, item, nil, entry, end, field}
use go_signing_server_anywhe.Hub.Lifecycle.{origin_allowed}
use go_signing_server_anywhe.Hub.Accounts.{handle_admin_login}
use go_signing_server_anywhe.Hub.Accounts.Login.{Credentials, handle_admin_login-store}
use go_signing_server_anywhe.Hub.Ingest.{bearer, post_call_events}
use go_signing_server_anywhe.Hub.Ingest.Authorized.{MaySend, Stores, post_call_events-Stores}
use go_signing_server_anywhe.Auditproxy.{broken}
use go_signing_server_anywhe.Hub.Sfu.{failure}
use go_signing_server_anywhe.Hub.Dispatch.{Server, Services, handle_message}
use go_signing_server_anywhe.Hub.Dispatch.Guarded.{handle_message-keeps}
use go_signing_server_anywhe.Hub.Dispatch.Keeping.{KeepsStore, open_types}
use go_signing_server_anywhe.Examples.Data.{
  an_env, a_config, a_store, a_manager, a_conn, idle_world,
}

parse_int-itoa_example : parse_int (codes (itoa (negsuc 1233))) ≡ (negsuc 1233, true)
parse_int-itoa_example = parse_int-itoa (negsuc 1233) (omega arith) (omega arith)

-- The secret itself as the code, and a reader that knows one payload.
abbrev a_mac : Bytes → Bytes → Bytes
a_mac secret m = secret

abbrev a_payload : IngestPayload
a_payload = record { client_id = pos 7; org_id = pos 1; exp = pos 5900 }

abbrev reads_one : Bytes → Option IngestPayload
reads_one raw = if bytes_beq raw (marshal a_payload) then some a_payload else none

reads : reads_one (marshal a_payload) ≡ some a_payload
unfolding bytes_beq marshal bytes utf8 sprint_int decimal digit
reads = refl

ends : a_payload.exp ≡ wrap_int64 (pos 5000 +ℤ pos 900)
unfolding wrap_int64 ◌+ℤ◌
ends = refl

verify_ingest_token-sign_ingest_token_example :
    (token : Bytes) × (sign_ingest_token a_mac reads_one
        (pos 5000)
        (1 ∷ 2 ∷ [])
        (pos 7)
        (pos 1)
        (pos 900)
      ≡ some token)
    × (verify_ingest_token a_mac reads_one (pos 5800) (1 ∷ 2 ∷ []) token ≡ accepted a_payload)
verify_ingest_token-sign_ingest_token_example =
    verify_ingest_token-sign_ingest_token a_mac reads_one (pos 5000) (pos 5800) (pos 900) 1 (2 ∷ [])
      a_payload reads ends (omega arith) (omega arith) (omega arith)

abbrev a_token : Bytes
a_token = url_encode (bytes "7") ++ (b'.' ∷ url_encode (1 ∷ 2 ∷ []))

abbrev reads_any : Bytes → Option IngestPayload
reads_any raw = some a_payload

token_accepted :
    verify_ingest_token a_mac reads_any (pos 5800) (1 ∷ 2 ∷ []) a_token ≡ accepted a_payload
unfolding verify_ingest_token check_parts check_raw check_payload token_signature bytes_beq split
    extend url_encode symbol bytes utf8 url_decode url_decode_groups keep is_break
token_accepted = refl

verify_ingest_token-accepted_example :
    (enc raw : Bytes) × (a_token ≡ enc ++ (b'.' ∷ token_signature a_mac reads_any (1 ∷ 2 ∷ []) enc))
    × (url_decode enc ≡ some raw)
    × (reads_any raw ≡ some a_payload)
    × (pos 0 <ℤ pos 7)
    × (pos 0 <ℤ pos 1)
    × (pos 5800 ≤ℤ pos 5900)
verify_ingest_token-accepted_example =
    verify_ingest_token-accepted a_mac reads_any (pos 5800) (1 ∷ 2 ∷ []) a_token a_payload
      token_accepted

abbrev zeros : ℕ → Bytes
zeros zero = []
zeros (suc n) = 0 ∷ zeros n

zeros-AreBytes : (n : ℕ) → AreBytes (zeros n)
zeros-AreBytes zero = tt
zeros-AreBytes (suc n) = (omega arith, zeros-AreBytes n)

length-zeros : (n : ℕ) → length (zeros n) ≡ n
length-zeros zero = refl
length-zeros (suc n) = omega (arith, length-zeros n)

-- A key that is as long as it has to be, and depends on the password.
abbrev head_byte : Bytes → ℕ
head_byte [] = 0
head_byte (b ∷ bs) = b % 256

abbrev a_key : Bytes → Bytes → ℤ → ℤ → ℤ → ℕ → Option Bytes
a_key password salt n r p len = some (head_byte password ∷ zeros 31)

derives :
    (password salt : Bytes)
    → (d : Bytes) × (server_scrypt_key a_key password salt ≡ some d)
      × (length d ≡ key_len)
      × AreBytes d
unfolding server_scrypt_key
derives password salt =
    (head_byte password ∷ zeros 31, refl, refl, (head_small password, zeros-AreBytes 31))
  where
    head_small : (bs : Bytes) → head_byte bs < 256
    head_small [] = omega arith
    head_small (b ∷ bs) = omega arith

verify_password-hash_password_example :
    (stored : Bytes) × (hash_password a_key (some (1 ∷ 2 ∷ [])) (bytes "secret") ≡ some stored)
    × ((other : Bytes)
        → (verify_password a_key other stored ≡ true) ↔ (
            server_scrypt_key a_key other (1 ∷ 2 ∷ [])
            ≡ server_scrypt_key a_key (bytes "secret") (1 ∷ 2 ∷ [])))
verify_password-hash_password_example =
    verify_password-hash_password a_key derives (bytes "secret") (1 ∷ 2 ∷ [])
      (omega arith, (omega arith, tt))

abbrev open_config : Config
open_config = record a_config { allowed_origins = parse_origins "https://a.b, https://c.d" }

origin_allowed-parse_origins_example : origin_allowed open_config "https://c.d" ≡ (
    not (any_origin (split_text b',' "https://a.b, https://c.d"))
    || is_empty "https://c.d"
    || names_origin "https://c.d" (split_text b',' "https://a.b, https://c.d"))
origin_allowed-parse_origins_example =
    origin_allowed-parse_origins open_config "https://a.b, https://c.d" "https://c.d" refl

-- A reader that knows the ends of the ranges and one more address.
abbrev reads_ip : String → Option Octets
reads_ip ip =
    if ip == "10.60.60.2"
    then some (record { a = 10; b = 60; c = 60; d = 2 })
    else if ip == "10.60.60.254"
    then some (record { a = 10; b = 60; c = 60; d = 254 })
    else if ip == "10.60.60.7"
    then some (record { a = 10; b = 60; c = 60; d = 7 })
    else none

office_network_label-is_on_office_network_example :
    is_on_office_network (λ c. c) reads_ip " 10.60.60.7" ("1.2.3.4" ∷ [])
    ≡ not (is_empty (office_network_label (λ c. c) reads_ip " 10.60.60.7" ("1.2.3.4" ∷ [])))
office_network_label-is_on_office_network_example =
    office_network_label-is_on_office_network (λ c. c) reads_ip " 10.60.60.7" ("1.2.3.4" ∷ [])

abbrev cloudflare_rows : List ServerEntry
cloudflare_rows =
    record {
      urls = any_urls (
          some "turn:t.example:3478"
          ∷ none
          ∷ some "turn:t.example:53"
          ∷ some " stun:s.example"
          ∷ []);
      username = "u";
      credential = "c";
    }
    ∷ record { urls = url "turns:t.example:5349"; username = ""; credential = "" }
    ∷ []

filter_port53-exact_example :
    all_written (filter_port53 cloudflare_rows)
    ≡ keep (λ u. not (contains u ":53")) (all_expanded cloudflare_rows)
filter_port53-exact_example = filter_port53-exact cloudflare_rows

upsert_client_auth-rows_example :
    KeepsRows
      (trim_space "device-7")
      "s-new"
      a_store
      (upsert_client_auth (λ c. c) "device-7" "one" "Bina" "s-new" 5000 a_store)
upsert_client_auth-rows_example =
    upsert_client_auth-rows (λ c. c) "device-7" "one" "Bina" "s-new" 5000 a_store

abbrev login_msg : Msg
login_msg =
    ("type", str "admin-login")
    ∷ ("orgName", str "one")
    ∷ ("username", str "root")
    ∷ ("password", str "hunter22")
    ∷ []

handle_admin_login-store_example :
    ((handle_admin_login an_env "s-admin" login_msg idle_world).store ≡ idle_world.store)
    ⊎ ((a : AdminRow) × Credentials an_env login_msg idle_world.store a
        × ((handle_admin_login an_env "s-admin" login_msg idle_world).store
            ≡ (create_admin_session an_env.session_bytes a.admin_id an_env.now idle_world.store).1))
handle_admin_login-store_example = handle_admin_login-store an_env "s-admin" login_msg idle_world

abbrev events_msg : Msg
events_msg =
    ("deviceId", str "device-7")
    ∷ (
      "events",
      arr (
          item
            (obj (
              entry "type" (str "incoming")
                (entry "platform" (str "phone") (entry "timestamp" (str "2026-01-01") end))))
            nil),
    )
    ∷ []

post_call_events-Stores_example :
    ((post_call_events an_env a_config "Bearer x.y" (some events_msg) a_store).1 ≡ a_store)
    ⊎ ((payload : Msg) × (id : ℤ) × (some events_msg ≡ some payload)
        × MaySend a_config
            (verify_ingest_token an_env.mac an_env.unmarshal
              (pos an_env.now)
              (bytes a_config.ingest_token_secret)
              (bytes (bearer "Bearer x.y")))
            payload
            a_store
            id
        × Stores id a_store
            (post_call_events an_env a_config "Bearer x.y" (some events_msg) a_store).1)
post_call_events-Stores_example =
    post_call_events-Stores an_env a_config "Bearer x.y" (some events_msg) a_store

abbrev some_services : Services
some_services = record {
  call = λ op sid body lane. (failure "off", 45000);
  audit = record { origin = ""; secret = ""; configured = false };
  exchange = λ url secret method body. broken "off";
}

abbrev a_server : Server
a_server = record { world = idle_world; ice = a_manager }

abbrev remove_msg : Msg
remove_msg = ("type", str "admin-remove-client") ∷ ("clientId", str "7") ∷ []

no_token : is_empty (as_token (field remove_msg "token")) ≡ true
unfolding is_empty as_non_empty_string field get string_beq
no_token = refl

remove_closed : has (msg_type remove_msg) open_types ≡ false
unfolding has open_types as_non_empty_string field get string_beq clean_string trim_space trim_left
    trim_right is_space is_empty byte_len width
remove_closed = refl

handle_message-keeps_example :
    KeepsStore a_server (handle_message 0 an_env some_services "s-admin" a_conn remove_msg a_server)
handle_message-keeps_example =
    handle_message-keeps 0 an_env some_services "s-admin" a_conn remove_msg a_server (inl no_token)
      remove_closed
