-- ===== src/Hub/Lifecycle/Slots.antt =====
-- The connection slots of an address (internal/hub/hub.go, serveWS, disconnect, heartbeatLoop).
use go_signing_server_anywhe.Prelude.{
  ℕ, suc, ◌+◌, ◌-◌, ◌≤◌, ◌<◌, String, ◌≡◌, inl, inr, false, some, arith, if◌then◌else◌, Bool-cases,
  ◌==◌, nat_eq, int_eq, string_eq, string_beq_iff,
}
use go_signing_server_anywhe.Prelude.Map.{
  get, put, del, get-del, holds, IsMap, put-IsMap, del-IsMap,
}
use go_signing_server_anywhe.Text.{is_empty}
use go_signing_server_anywhe.Db.Tables.{ClientRow}
use go_signing_server_anywhe.Hub.Types.{Hub, Conn}
use go_signing_server_anywhe.Hub.World.{World, Env}
use go_signing_server_anywhe.Hub.Lifecycle.{
  Request, reserved, slots_of, ip_slots, reserve, upgrade_failed, new_conn, register, release_slot,
  leave, disconnect, evict,
}
use go_signing_server_anywhe.Hub.Lifecycle.Counting.{
  on_ip, slots_of-put, slots_of-release, on_ip-put, on_ip-del, release_slot-le, release_slot_empty,
}

-- One critical section that touches the slots. `p ip` is the number of upgrades under way from
-- `ip`: reserved, and neither registered nor failed yet.
pub data Step (h : Hub) (p : String → ℕ) : Hub → (String → ℕ) → Type 0 where
  admits :
      (r : Request) (ip : String)
      → (reserve r h).1 ≡ reserved ip
      → Step h p (reserve r h).0 (λ j. if ip == j then suc (p j) else p j)
  upgrades :
      (sid ip : String) (now : ℕ)
      → 0 < p ip
      → holds sid h.conns ≡ false
      → Step h p (register sid ip now h) (λ j. if ip == j then p j - 1 else p j)
  fails :
      (ip : String)
      → 0 < p ip
      → Step h p (upgrade_failed ip h) (λ j. if ip == j then p j - 1 else p j)
  leaves : (sid : String) (c : Conn) → get sid h.conns ≡ some c → Step h p (leave sid c h) p

pub data Reach (h : Hub) (p : String → ℕ) : Hub → (String → ℕ) → Type 0 where
  here : Reach h p h p
  next :
      {h' h'' : Hub} {p' p'' : String → ℕ}
      → Reach h p h' p'
      → Step h' p' h'' p''
      → Reach h p h'' p''

pub record Slots (h : Hub) (p : String → ℕ) : Type 0 where
  pub counted : (ip : String) → is_empty ip ≡ false → ip_slots ip h ≡ on_ip ip h.conns + p ip
  pub bounded : (ip : String) → ip_slots ip h ≤ h.cfg.max_per_ip
  pub sockets : IsMap h.conns

reserve_lem :
    (r : Request) (ip : String) (h : Hub)
    → (reserve r h).1 ≡ reserved ip
    → ((reserve r h).0 ≡ record h { ip_count = put ip (suc (ip_slots ip h)) h.ip_count })
      × (ip_slots ip h < h.cfg.max_per_ip)
unfolding reserve
reserve_lem r ip h e = ground arith

module _ {h : Hub} {p : String → ℕ} (s : Slots h p) where
  admits-Slots :
      (r : Request) (ip : String)
      → (reserve r h).1 ≡ reserved ip
      → Slots (reserve r h).0 (λ j. if ip == j then suc (p j) else p j)
  admits-Slots r ip e =
      let (same, room) = reserve_lem r ip h e in
      rw same (record {
        counted = λ j full. ground (
          arith,
          slots_of-put ip j (suc (ip_slots ip h)) h.ip_count,
          s.counted j full,
          string_beq_iff ip j,
        );
        bounded = λ j.
            ground (arith, slots_of-put ip j (suc (ip_slots ip h)) h.ip_count, room, s.bounded j);
        sockets = s.sockets;
      })

  upgrades-Slots :
      (sid ip : String) (now : ℕ)
      → 0 < p ip
      → holds sid h.conns ≡ false
      → Slots (register sid ip now h) (λ j. if ip == j then p j - 1 else p j)
  unfolding register new_conn
  upgrades-Slots sid ip now some_left fresh = record {
    counted = λ j full. ground (
      arith,
      s.counted j full,
      on_ip-put j sid (new_conn h.cfg ip now) h.conns fresh,
      string_beq_iff ip j,
    );
    bounded = s.bounded;
    sockets = put-IsMap sid _ h.conns s.sockets;
  }

  fails-Slots :
      (ip : String) → 0 < p ip → Slots (upgrade_failed ip h) (λ j. if ip == j then p j - 1 else p j)
  unfolding upgrade_failed
  fails-Slots ip some_left = record {
    counted = λ j full. ground (
      arith,
      slots_of-put ip j (ip_slots ip h - 1) h.ip_count,
      s.counted j full,
      string_beq_iff ip j,
    );
    bounded = λ j.
        ground (arith, slots_of-put ip j (ip_slots ip h - 1) h.ip_count, s.bounded ip, s.bounded j);
    sockets = s.sockets;
  }

  leaves-Slots : (sid : String) (c : Conn) → get sid h.conns ≡ some c → Slots (leave sid c h) p
  unfolding leave
  leaves-Slots sid c e = record {
    counted = λ j full. leaves_counted j full;
    bounded = λ j. omega (arith, release_slot-le c.ip j h.ip_count, s.bounded j);
    sockets = del-IsMap sid h.conns s.sockets;
  }
    where
      leaves_counted :
          (j : String)
          → is_empty j ≡ false
          → slots_of j (release_slot c.ip h.ip_count) ≡ on_ip j (del sid h.conns) + p j
      leaves_counted j full = elim (Bool-cases (is_empty c.ip)) [
        | inl e' ↦ ground (
          arith,
          s.counted j full,
          release_slot_empty c.ip h.ip_count e',
          on_ip-del j sid c h.conns s.sockets e,
          string_beq_iff c.ip j,
        )
        | inr e' ↦ ground (
          arith,
          s.counted j full,
          slots_of-release c.ip j h.ip_count e',
          on_ip-del j sid c h.conns s.sockets e,
        )
      ]

Step-Slots : {h h' : Hub} {p p' : String → ℕ} → Slots h p → Step h p h' p' → Slots h' p'
Step-Slots s (admits r ip e) = admits-Slots s r ip e
Step-Slots s (upgrades sid ip now some_left fresh) = upgrades-Slots s sid ip now some_left fresh
Step-Slots s (fails ip some_left) = fails-Slots s ip some_left
Step-Slots s (leaves sid c e) = leaves-Slots s sid c e

pub Reach-Slots :
    {h : Hub} {p : String → ℕ} {h' : Hub} {p' : String → ℕ}
    → Slots h p
    → Reach h p h' p'
    → Slots h' p'
Reach-Slots s here = s
Reach-Slots s (next r st) = Step-Slots (Reach-Slots s r) st

-- However admissions, upgrades, failures and departures interleave, the connections and the
-- upgrades under way from an address are exactly the slots that it holds, and no address holds
-- more than `MaxPerIP`. The address is not empty, it is so at the start, as in the empty hub, and
-- no eviction happens.
pub Reach-bound :
    {h : Hub} {p : String → ℕ} {h' : Hub} {p' : String → ℕ} (ip : String)
    → Slots h p
    → Reach h p h' p'
    → is_empty ip ≡ false
    → (ip_slots ip h' ≡ on_ip ip h'.conns + p' ip) × (on_ip ip h'.conns + p' ip ≤ h'.cfg.max_per_ip)
Reach-bound ip s r full =
    let t = Reach-Slots s r in (t.counted ip full, ground (arith, t.counted ip full, t.bounded ip))

-- The eviction of a stale client whose socket is connected takes its connection away and keeps
-- its slot, and the `disconnect` that follows when its reader ends changes nothing, so the slot
-- is lost; a socket has one connection.
pub evict_leaks :
    (env : Env) (w : World) (row : ClientRow) (sid : String) (c : Conn)
    → row.socket_id ≡ some sid
    → get sid w.hub.conns ≡ some c
    → IsMap w.hub.conns
    → let w' = record w { hub = evict row w.hub } in
      (disconnect env sid w' ≡ w')
      × (ip_slots c.ip w'.hub ≡ ip_slots c.ip w.hub)
      × (on_ip c.ip w'.hub.conns + 1 ≡ on_ip c.ip w.hub.conns)
unfolding evict disconnect
evict_leaks env w row sid c e found one = (
  ground (arith, get-del sid sid w.hub.conns, string_beq_iff sid sid),
  ground arith,
  ground (arith, on_ip-del c.ip sid c w.hub.conns one found, string_beq_iff c.ip c.ip),
)
