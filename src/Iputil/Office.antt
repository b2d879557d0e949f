-- ===== src/Iputil/Office.antt =====
-- The two questions about the office network agree.
use Prim.Native.Char.{Char}
use go_signing_server_anywhe.Prelude.{
  ℕ, String, ◌≡◌, refl, Bool, true, false, not, Option, none, some, List, [], ◌∷◌, if◌then◌else◌,
  nat_eq, int_eq, string_eq,
}
use go_signing_server_anywhe.Text.{is_empty}
use go_signing_server_anywhe.Iputil.{
  Octets, OfficeRange, office_ranges, candidates, in_range, in_some_range, is_office_ipv4,
  any_office, is_on_office_network, range_name, label_of, first_label, office_network_label,
}

abbrev AllNamed : List OfficeRange → Type 0
AllNamed [] = Unit {0}
AllNamed (r ∷ rs) = (is_empty r.name ≡ false) × AllNamed rs

-- A name that is not empty stands for a range that was found.
abbrev Names : Option String → Bool → Type 0
Names none b = b ≡ false
Names (some name) b = (b ≡ true) × (is_empty name ≡ false)

step-Names :
    (v6 inside : Bool) (name : String) (o : Option String) (b : Bool)
    → is_empty name ≡ false
    → Names o b
    → Names
        (if v6 then o else (if inside then some name else o))
        (if v6 then b else (if inside then true else b))
step-Names true inside name o b h k = k
step-Names false true name o b h k = (refl, h)
step-Names false false name o b h k = k

guard-Names :
    (known : Bool) (o : Option String) (b : Bool)
    → Names o b
    → Names (if known then o else none) (if known then b else false)
guard-Names true o b k = k
guard-Names false o b k = refl

first-Names :
    (o : Option String) (b others : Bool) (rest : String)
    → Names o b
    → others ≡ not (is_empty rest)
    → (if b then true else others) ≡ not (is_empty (elim o [ none ↦ rest | some name ↦ name ]))
first-Names none b others rest k h = rw k h
first-Names (some name) b others rest k h = rw (k.0, k.1) refl

module _ (lower_rune : Char → Char) (parse_ip4 : String → Option Octets) where
  range_name-Names :
      (addr : ℕ) (rs : List OfficeRange)
      → AllNamed rs
      → Names (range_name lower_rune parse_ip4 addr rs) (in_some_range lower_rune parse_ip4 addr rs)
  unfolding range_name in_some_range
  range_name-Names addr [] h = refl
  range_name-Names addr (r ∷ rs) h =
      step-Names r.v6 (in_range lower_rune parse_ip4 addr r) r.name _ _ h.0
        (range_name-Names addr rs h.1)

  ranges_named : AllNamed office_ranges
  unfolding office_ranges is_empty
  ranges_named = (refl, (refl, (refl, tt)))

  label_of-Names :
      (ip : String)
      → Names (label_of lower_rune parse_ip4 ip) (is_office_ipv4 lower_rune parse_ip4 ip)
  unfolding label_of is_office_ipv4
  label_of-Names ip = guard-Names _ _ _ (range_name-Names _ office_ranges ranges_named)

  first_label-any_office :
      (ips : List String)
      → any_office lower_rune parse_ip4 ips ≡ not (is_empty (first_label lower_rune parse_ip4 ips))
  unfolding first_label any_office is_empty
  first_label-any_office [] = refl
  first_label-any_office (ip ∷ ips) =
      first-Names _ _ _ _ (label_of-Names ip) (first_label-any_office ips)

  -- The server is said to be asked from the office network exactly if the office has a name.
  pub office_network_label-is_on_office_network :
      (server_seen_ip : String) (workstation_ips : List String)
      → is_on_office_network lower_rune parse_ip4 server_seen_ip workstation_ips
        ≡ not (is_empty (office_network_label lower_rune parse_ip4 server_seen_ip workstation_ips))
  unfolding office_network_label is_on_office_network
  office_network_label-is_on_office_network s ws = first_label-any_office (candidates s ws)
