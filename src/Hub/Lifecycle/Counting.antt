-- ===== src/Hub/Lifecycle/Counting.antt =====
-- How many slots and connections an address has (internal/hub/hub.go).
use go_signing_server_anywhe.Prelude.{
  ℕ, suc, ◌+◌, ◌-◌, ◌≤◌, String, ◌≡◌, refl, true, false, some, List, [], ◌∷◌, arith, if◌then◌else◌,
  ◌==◌, nat_eq, int_eq, string_eq, string_beq_iff,
}
use go_signing_server_anywhe.Prelude.Map.{get, put, del, get-put, get-del, holds, IsMap}
use go_signing_server_anywhe.Text.{is_empty}
use go_signing_server_anywhe.Hub.Types.{Conn, Conns}
use go_signing_server_anywhe.Hub.Lifecycle.{slots_of, release_slot}

-- The connections from one address.
unfoldable pub on_ip : String → Conns → ℕ
on_ip ip [] = 0
on_ip ip ((sid, c) ∷ rest) = let n = on_ip ip rest in if c.ip == ip then suc n else n

pub slots_of-put :
    (ip j : String) (n : ℕ) (m : List (String × ℕ))
    → slots_of j (put ip n m) ≡ (if ip == j then n else slots_of j m)
unfolding slots_of
slots_of-put ip j n m = ground (arith, get-put ip j n m)

pub slots_of-del :
    (ip j : String) (m : List (String × ℕ))
    → slots_of j (del ip m) ≡ (if ip == j then 0 else slots_of j m)
unfolding slots_of
slots_of-del ip j m = ground (arith, get-del ip j m)

-- The slots of an address after a connection from `ip` has left.
pub slots_of-release :
    (ip j : String) (m : List (String × ℕ))
    → is_empty ip ≡ false
    → slots_of j (release_slot ip m) ≡ (if ip == j then slots_of j m - 1 else slots_of j m)
unfolding release_slot
slots_of-release ip j m full =
    ground
      (arith, slots_of-put ip j (slots_of ip m - 1) m, slots_of-del ip j m, string_beq_iff ip j)

pub on_ip-put :
    (ip sid : String) (c : Conn) (m : Conns)
    → holds sid m ≡ false
    → on_ip ip (put sid c m) ≡ on_ip ip m + (if c.ip == ip then 1 else 0)
unfolding on_ip put holds
on_ip-put ip sid c [] e = ground arith
on_ip-put ip sid c ((k, d) ∷ m) e = ground (arith, on_ip-put ip sid c m)

pub on_ip-del_absent :
    (ip sid : String) (m : Conns) → holds sid m ≡ false → on_ip ip (del sid m) ≡ on_ip ip m
unfolding on_ip del holds
on_ip-del_absent ip sid [] e = refl
on_ip-del_absent ip sid ((k, d) ∷ m) e = ground (arith, on_ip-del_absent ip sid m)

pub on_ip-del :
    (ip sid : String) (c : Conn) (m : Conns)
    → IsMap m
    → get sid m ≡ some c
    → on_ip ip (del sid m) + (if c.ip == ip then 1 else 0) ≡ on_ip ip m
unfolding on_ip del get
on_ip-del ip sid c [] one e = cc
on_ip-del ip sid c ((k, d) ∷ m) one e =
    ground (arith, on_ip-del ip sid c m one.1, on_ip-del_absent ip sid m, string_beq_iff k sid)

pub release_slot-le :
    (ip j : String) (m : List (String × ℕ)) → slots_of j (release_slot ip m) ≤ slots_of j m
unfolding release_slot
release_slot-le ip j m =
    ground
      (arith, slots_of-put ip j (slots_of ip m - 1) m, slots_of-del ip j m, string_beq_iff ip j)

pub release_slot_empty :
    (ip : String) (m : List (String × ℕ)) → is_empty ip ≡ true → release_slot ip m ≡ m
unfolding release_slot
release_slot_empty ip m e = ground arith

-- What a reservation did.
