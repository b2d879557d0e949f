-- ===== src/Iputil.antt =====
-- internal/iputil/office.go: the networks of the offices. `net.ParseIP` and `To4` are a parameter,
-- as the 4 bytes of an IPv4 address.
pub mod Office
use Prim.Native.Char.{Char}
use go_signing_server_anywhe.Prelude.{
  ℕ, zero, suc, ◌+◌, ◌-◌, ◌*◌, ◌/◌, ◌%◌, ◌^◌, ◌≤◌, ◌<◌, String, ◌≡◌, refl, sym, ap, ◌∙◌, ◌≢◌, ◌↔◌,
  ◌⊎◌, inl, inr, Bool, true, false, not, ◌&&◌, ◌||◌, Option, none, some, List, [], ◌∷◌, ◌++◌, map,
  arith, eq_iff, ltb, leb, nat_beq, if◌then◌else◌, ltb→lt, lt→ltb, leb→le, le→leb, nat_beq_iff,
  tests, Bool-cases, Option-cases, ℤ, pos, negsuc, pos_part, neg_part, sub_ℕ, ◌+ℤ◌, ◌-ℤ◌, ◌≤ℤ◌,
  ◌<ℤ◌, ltb_ℤ, leb_ℤ, int_beq, int_beq_iff, Eq, ◌==◌, ◌!=◌, nat_eq, int_eq, string_eq, string_beq,
  string_beq_iff, beq_refl, length, take, keep, count, length-append, length-keep-le,
  length-keep-count, keep-append, has, add, remove, IsSetList, has-add, has-remove, add-IsSetList,
  remove-IsSetList, remove_absent, length-remove, length-remove-le,
}
use go_signing_server_anywhe.Text.{is_empty, trim_space}
use go_signing_server_anywhe.Text.Case.{to_lower, trim_prefix}

pub record Octets : Type 0 where
  pub a : ℕ
  pub b : ℕ
  pub c : ℕ
  pub d : ℕ

pub record OfficeRange : Type 0 where
  pub name : String
  pub start : String
  pub last : String
  pub v6 : Bool

unfoldable pub office_ranges : List OfficeRange
office_ranges =
    record { name = "HR_FINANCE"; start = "10.60.60.2"; last = "10.60.60.254"; v6 = false }
    ∷ record { name = "IT_ADMIN"; start = "10.85.85.2"; last = "10.85.85.250"; v6 = false }
    ∷ record { name = "2ND_FLOOR_A"; start = "10.20.20.10"; last = "10.20.20.250"; v6 = false }
    ∷ []

-- The two loops that gather the addresses to look at.
unfoldable pub trimmed : List String → List String
trimmed [] = []
trimmed (w ∷ ws) =
    let rest = trimmed ws in if is_empty (trim_space w) then rest else trim_space w ∷ rest

unfoldable pub candidates : String → List String → List String
unfolding trimmed
candidates server_seen_ip workstation_ips =
    let t = trim_space server_seen_ip in
    let rest = trimmed workstation_ips in
    if not (is_empty t) && not (t == "unknown") then t ∷ rest else rest

unfoldable pub octets_value : Option Octets → ℕ × Bool
octets_value none = (0, false)
octets_value (some v4) = (v4.a * 2 ^ 24 + v4.b * 2 ^ 16 + v4.c * 2 ^ 8 + v4.d, true)

module _ (lower_rune : Char → Char) (parse_ip4 : String → Option Octets) where
  unfoldable pub ipv4_to_int : String → ℕ × Bool
  unfolding octets_value
  ipv4_to_int ip = octets_value (parse_ip4 (trim_space ip))

  -- `addr >= lo && addr <= hi`
  unfoldable pub in_range : ℕ → OfficeRange → Bool
  unfolding ipv4_to_int
  in_range addr r = leb (ipv4_to_int r.start).0 addr && leb addr (ipv4_to_int r.last).0

  unfoldable pub in_some_range : ℕ → List OfficeRange → Bool
  unfolding in_range
  in_some_range addr [] = false
  in_some_range addr (r ∷ rs) =
      let rest = in_some_range addr rs in
      if r.v6 then rest else if in_range addr r then true else rest

  unfoldable pub clean_of : String → String
  clean_of ip = trim_prefix (to_lower lower_rune ip) "::ffff:"

  unfoldable pub is_office_ipv4 : String → Bool
  unfolding clean_of in_some_range
  is_office_ipv4 ip =
      let addr = ipv4_to_int (clean_of ip) in
      if addr.1 then in_some_range addr.0 office_ranges else false

  unfoldable pub any_office : List String → Bool
  unfolding is_office_ipv4
  any_office [] = false
  any_office (ip ∷ ips) = let rest = any_office ips in if is_office_ipv4 ip then true else rest

  unfoldable pub is_on_office_network : String → List String → Bool
  unfolding any_office candidates
  is_on_office_network server_seen_ip workstation_ips =
      any_office (candidates server_seen_ip workstation_ips)

  -- The name of the first range that holds an address.
  unfoldable pub range_name : ℕ → List OfficeRange → Option String
  unfolding in_range
  range_name addr [] = none
  range_name addr (r ∷ rs) =
      let rest = range_name addr rs in
      if r.v6 then rest else if in_range addr r then some r.name else rest

  unfoldable pub label_of : String → Option String
  unfolding clean_of range_name
  label_of ip =
      let addr = ipv4_to_int (clean_of ip) in
      if addr.1 then range_name addr.0 office_ranges else none

  unfoldable pub first_label : List String → String
  unfolding label_of
  first_label [] = ""
  first_label (ip ∷ ips) =
      let rest = first_label ips in elim (label_of ip) [ none ↦ rest | some name ↦ name ]

  unfoldable pub office_network_label : String → List String → String
  unfolding first_label candidates
  office_network_label server_seen_ip workstation_ips =
      first_label (candidates server_seen_ip workstation_ips)
