-- ===== src/Ice/Cloudflare.antt =====
-- internal/ice/cloudflare.go, manager.go: the TURN servers that Cloudflare generates, and the
-- refresh of the manager's lists. The HTTP exchange is a parameter.
pub mod Filter
use go_signing_server_anywhe.Prelude.{
  ℕ, zero, suc, ◌+◌, ◌-◌, ◌*◌, ◌/◌, ◌%◌, ◌^◌, ◌≤◌, ◌<◌, String, ◌≡◌, refl, sym, ap, ◌∙◌, ◌≢◌, ◌↔◌,
  ◌⊎◌, inl, inr, Bool, true, false, not, ◌&&◌, ◌||◌, Option, none, some, List, [], ◌∷◌, ◌++◌, map,
  arith, eq_iff, ltb, leb, nat_beq, if◌then◌else◌, ltb→lt, lt→ltb, leb→le, le→leb, nat_beq_iff,
  tests, Bool-cases, Option-cases, ℤ, pos, negsuc, pos_part, neg_part, sub_ℕ, ◌+ℤ◌, ◌-ℤ◌, ◌≤ℤ◌,
  ◌<ℤ◌, ltb_ℤ, leb_ℤ, int_beq, int_beq_iff, Eq, ◌==◌, ◌!=◌, nat_eq, int_eq, string_eq, string_beq,
  string_beq_iff, beq_refl, length, take, keep, count, length-append, length-keep-le,
  length-keep-count, keep-append, has, add, remove, IsSetList, has-add, has-remove, add-IsSetList,
  remove-IsSetList, remove_absent, length-remove, length-remove-le,
}
use go_signing_server_anywhe.Text.{is_empty, trim_space, byte_len, take_bytes}
use Prim.Native.String.{◌++◌ as str_append}
use go_signing_server_anywhe.Text.Bytes.{Bytes, bytes, std_encode}
use go_signing_server_anywhe.Text.Case.{contains, text}
use go_signing_server_anywhe.Util.{sprint_int}
use go_signing_server_anywhe.Ice.Pool.{
  CloudflareLane, ProviderPool, IceConfig, mark_success, mark_failure, probe_realtime,
}
use go_signing_server_anywhe.Ice.Plan.{Manager, is_empty_list}
use go_signing_server_anywhe.Ice.Plan.Servers.{
  Urls, url, any_urls, string_urls, other_urls, ServerEntry, base_stun_servers, merge_ice_lists,
  build_home_ice_servers,
}

-- MintTurnCredentials, at a Unix time; `username` and `credential` are those of the environment.
unfoldable pub mint_turn_credentials :
    (Bytes → Bytes → Bytes) → ℤ → String → ℤ → String → String → String × String
mint_turn_credentials mac unix secret ttl username credential =
    let minted = str_append (sprint_int (unix +ℤ ttl)) ":screenshare" in
    if is_empty secret
    then (username, credential)
    else (minted, text (std_encode (mac (bytes secret) (bytes minted))))

-- s[:n] of a text that is too long
unfoldable pub truncate : String → ℕ → String
truncate s n = if leb (byte_len s) n then s else take_bytes n s

-- The strings of a decoded list, trimmed, without the empty ones.
unfoldable pub trimmed_strings : List (Option String) → List String
trimmed_strings [] = []
trimmed_strings (none ∷ us) = trimmed_strings us
trimmed_strings (some s ∷ us) =
    let rest = trimmed_strings us in if is_empty (trim_space s) then rest else trim_space s ∷ rest

unfoldable pub expand_urls : Urls → List String
unfolding trimmed_strings
expand_urls (url u) = if is_empty (trim_space u) then [] else trim_space u ∷ []
expand_urls (string_urls us) = us
expand_urls (any_urls us) = trimmed_strings us
expand_urls other_urls = []

-- The row of the addresses that are left, where there are any.
unfoldable pub filtered_row : ServerEntry → List String → List ServerEntry
filtered_row e [] = []
filtered_row e (u ∷ []) =
    record { urls = url u; username = e.username; credential = e.credential } ∷ []
filtered_row e (u ∷ v ∷ us) =
    record { urls = string_urls (u ∷ v ∷ us); username = e.username; credential = e.credential }
    ∷ []

unfoldable pub filter_port53 : List ServerEntry → List ServerEntry
unfolding filtered_row expand_urls
filter_port53 [] = []
filter_port53 (e ∷ es) =
    filtered_row e (keep (λ u. not (contains u ":53")) (expand_urls e.urls)) ++ filter_port53 es

-- An answer of the service: its status and its list of servers, where the body has one.
pub data Generated : Type 0 where
  no_answer : Generated
  generated : ℕ → Option (List ServerEntry) → Generated

unfoldable pub servers_of : Generated → Option (List ServerEntry)
unfolding filter_port53
servers_of no_answer = none
servers_of (generated status none) = none
servers_of (generated status (some es)) =
    if ltb status 200 || leb 300 status then none else some (filter_port53 es)

-- `generate key_id token` asks the service.
module _ (generate : String → String → Generated) where
  -- `none` is an error.
  unfoldable pub fetch_cloudflare_ice_for_lane : String → String → Option (List ServerEntry)
  unfolding servers_of
  fetch_cloudflare_ice_for_lane key_id token =
      if is_empty (trim_space key_id) || is_empty (trim_space token)
      then some []
      else servers_of (generate (trim_space key_id) (trim_space token))

  -- One lane: its servers are merged, and its health is noted.
  unfoldable pub merge_lane :
      ℕ
      → ℕ
      → Option (List ServerEntry)
      → List ServerEntry × ProviderPool
      → List ServerEntry × ProviderPool
  merge_lane now lane none (merged, p) = (merged, mark_failure now lane p)
  merge_lane now lane (some []) (merged, p) = (merged, p)
  merge_lane now lane (some (e ∷ es)) (merged, p) =
      (merge_ice_lists (merged ∷ (e ∷ es) ∷ []), mark_success now lane p)

  unfoldable pub fetch_lanes :
      ℕ → List CloudflareLane → List ServerEntry × ProviderPool → List ServerEntry × ProviderPool
  unfolding merge_lane fetch_cloudflare_ice_for_lane
  fetch_lanes now [] got = got
  fetch_lanes now (l ∷ ls) got =
      fetch_lanes now ls
        (merge_lane now l.lane (fetch_cloudflare_ice_for_lane l.turn_key_id l.turn_key_token) got)

  unfoldable pub fetch_all_cloudflare_ice_servers :
      ℕ → ProviderPool → List ServerEntry × ProviderPool
  unfolding fetch_lanes
  fetch_all_cloudflare_ice_servers now p = fetch_lanes now p.lanes ([], p)

  -- Manager.refresh, the servers of the configuration being `home`.
  unfoldable pub refresh : ℕ → List ServerEntry → Manager → Manager
  unfolding fetch_all_cloudflare_ice_servers
  refresh now home m =
      let (cf, p) = fetch_all_cloudflare_ice_servers now m.pool in
      record m {
        pool = p;
        full = merge_ice_lists (base_stun_servers ∷ home ∷ cf ∷ []);
        stun_only = merge_ice_lists (base_stun_servers ∷ [] ∷ [] ∷ []);
      }
