-- ===== src/Ice/Plan/Servers.antt =====
-- The lists of ICE servers (internal/ice/manager.go, servers.go).
use go_signing_server_anywhe.Prelude.{
  String, Option, none, some, List, [], ◌∷◌, ◌++◌, map, if◌then◌else◌, nat_eq, int_eq, string_eq,
  has,
}
use Prim.Native.String.{◌++◌ as str_append}
use go_signing_server_anywhe.Text.{is_empty, trim_space}

-- `URLs any`: a string, a []any, of whose elements only the strings count, or a []string.
pub data Urls : Type 0 where
  url : String → Urls
  any_urls : List (Option String) → Urls
  string_urls : List String → Urls
  other_urls : Urls

pub record ServerEntry : Type 0 where
  pub urls : Urls
  pub username : String
  pub credential : String

abbrev pub base_stun_servers : List ServerEntry
base_stun_servers =
    record { urls = url "stun:stun.l.google.com:19302"; username = ""; credential = "" }
    ∷ record { urls = url "stun:stun.cloudflare.com:3478"; username = ""; credential = "" }
    ∷ []

unfoldable pub string_of : Option String → String
string_of none = ""
string_of (some s) = s

unfoldable pub join_urls : List String → String
join_urls [] = ""
join_urls (u ∷ us) = str_append (str_append u ",") (join_urls us)

unfoldable pub server_key : ServerEntry → String
unfolding join_urls string_of
server_key e = elim e.urls [
  | url u ↦ str_append (str_append u "|") e.username
  | any_urls us ↦ str_append (str_append (join_urls (map string_of us)) "|") e.username
  | string_urls us ↦ str_append (str_append (join_urls us) "|") e.username
  | other_urls ↦ ""
]

-- One list of `mergeIceLists`; `seen` holds the keys of what was taken.
unfoldable pub merge_list : List ServerEntry → List String → List ServerEntry × List String
merge_list [] seen = ([], seen)
merge_list (e ∷ es) seen =
    let key = server_key e in
    let skip = merge_list es seen in
    let (out, seen') = merge_list es (key ∷ seen) in
    if is_empty key then skip else if has key seen then skip else (e ∷ out, seen')

unfoldable pub merge_parts : List (List ServerEntry) → List String → List ServerEntry
unfolding merge_list
merge_parts [] seen = []
merge_parts (p ∷ ps) seen = let (out, seen') = merge_list p seen in out ++ merge_parts ps seen'

unfoldable pub merge_ice_lists : List (List ServerEntry) → List ServerEntry
unfolding merge_parts
merge_ice_lists parts = merge_parts parts []

-- The five URLs of `BuildHomeIceServers`, and the list that ICE_SERVERS_JSON holds.
unfoldable pub home_entries : List String → String → String → List ServerEntry
home_entries [] username credential = []
home_entries (u ∷ us) username credential =
    let rest = home_entries us username credential in
    if is_empty (trim_space u)
    then rest
    else record { urls = url u; username = username; credential = credential } ∷ rest

unfoldable pub build_home_ice_servers :
    List String → Option (List ServerEntry) → String → String → List ServerEntry
unfolding home_entries
build_home_ice_servers turn_urls parsed username credential =
    elim (home_entries turn_urls username credential) [
      | [] ↦ (elim parsed [ none ↦ [] | some es ↦ es ])
      | e ∷ es ↦ e ∷ es
    ]
