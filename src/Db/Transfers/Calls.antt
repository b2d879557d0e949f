-- ===== src/Db/Transfers/Calls.antt =====
-- The open requests of a client and the calls that may add one, through single statements
-- (internal/db/transfer.go).
use go_signing_server_anywhe.Prelude.{
  ◌&&◌, ℕ, zero, suc, ◌+◌, ◌≤◌, ◌⊎◌, inl, inr, sym, ap, length, Bool-cases, String, ◌≡◌, refl, Bool,
  true, false, Option, none, some, List, [], ◌∷◌, arith, if◌then◌else◌, ℤ, int_beq_iff, ◌==◌,
  nat_eq, int_eq, string_eq, string_beq, count,
}
use go_signing_server_anywhe.Db.Tables.{TransferRow, Store, update_where}
use go_signing_server_anywhe.Db.Transfers.{
  is_pending_for, settle, newest_where, new_transfer, insert_transfer, Call, asked, looked,
  none_open, returned, begin_call, unless_found, advance, failed,
}

abbrev pub pending : ℤ → List TransferRow → ℕ
pending client_id ts = count (is_pending_for client_id) ts

newest_where-none :
    (p : TransferRow → Bool) (ts : List TransferRow) → newest_where p ts ≡ none → count p ts ≡ 0
unfolding newest_where count
newest_where-none p [] h = refl
newest_where-none p (t ∷ ts) h = ground (arith, newest_where-none p ts)

-- Settling rows to a status that is not open opens none.
pub count-settle :
    (p : TransferRow → Bool) (status : String) (by : ℤ) (now : ℕ) (client_id : ℤ)
    → (status == "pending") ≡ false
    → (ts : List TransferRow)
    → pending client_id (update_where p (settle status by now) ts) ≤ pending client_id ts
unfolding update_where count is_pending_for settle
count-settle p status by now client_id h [] = omega arith
count-settle p status by now client_id h (t ∷ ts) =
    ground (arith, count-settle p status by now client_id h ts)

pending_new :
    (s : Store) (client_id from_org to_org by : ℤ) (a : Option ℤ) (now : ℕ) (other : ℤ)
    → pending other (new_transfer s client_id from_org to_org by a "pending" now ∷ s.transfers)
      ≡ (if client_id == other then suc (pending other s.transfers) else pending other s.transfers)
unfolding count is_pending_for new_transfer string_beq
pending_new s client_id from_org to_org by a now other = ground arith

pub pending_new_approved :
    (s : Store) (client_id from_org to_org by : ℤ) (a : Option ℤ) (now : ℕ) (other : ℤ)
    → pending other (new_transfer s client_id from_org to_org by a "approved" now ∷ s.transfers)
      ≡ pending other s.transfers
unfolding count is_pending_for new_transfer string_beq
pending_new_approved s client_id from_org to_org by a now other = ground arith

-- A call that has found no open request of the client and may yet insert one.
unfoldable pub waits : ℤ → Call → Bool
waits client_id (looked c f t by) = c == client_id
waits client_id (none_open c f t by) = c == client_id
waits client_id _ = false

abbrev pub waiting : ℤ → List Call → ℕ
waiting client_id calls = count (waits client_id) calls

-- The open requests of a client and the calls that may add one.
abbrev pub demand : ℤ → List Call → Store → ℕ
demand client_id calls s = pending client_id s.transfers + waiting client_id calls

count-le-length : (p : Call → Bool) (calls : List Call) → count p calls ≤ length calls
unfolding count
count-le-length p [] = omega arith
count-le-length p (c ∷ calls) = ground (arith, count-le-length p calls)

abbrev weight : Bool → ℕ
weight b = if b then 1 else 0

found-pending :
    (client_id f t by : ℤ) (o : Option ℤ) (other : ℤ) (ts : List TransferRow)
    → (o ≡ none → pending client_id ts ≡ 0)
    → (weight (waits other (unless_found o (looked client_id f t by))) ≡ 0) ⊎ (pending other ts ≡ 0)
unfolding unless_found waits
found-pending client_id f t by (some id) other ts h = inl refl
found-pending client_id f t by none other ts h = elim (Bool-cases (client_id == other)) [
  | inl e ↦ inr (rw (sym ((int_beq_iff client_id other).0 e)) (h refl))
  | inr e ↦ inl (rw e refl)
]

asked_demand :
    (up : Bool) (client_id f t by : ℤ) (o : Option ℤ) (other : ℤ) (ts : List TransferRow)
    → (o ≡ none → pending client_id ts ≡ 0)
    → (weight
          (waits other (if up then unless_found o (looked client_id f t by) else returned failed))
        ≡ 0)
      ⊎ (pending other ts ≡ 0)
unfolding waits
asked_demand true client_id f t by o other ts h = found-pending client_id f t by o other ts h
asked_demand false client_id f t by o other ts h = inl refl

looked_demand :
    (up : Bool) (client_id f t by : ℤ) (o : Option ℤ) (other : ℤ)
    → weight
        (waits other (if up then unless_found o (none_open client_id f t by) else returned failed))
      ≤ weight (waits other (looked client_id f t by))
unfolding waits unless_found
looked_demand true client_id f t by none other = omega arith
looked_demand true client_id f t by (some id) other = omega arith
looked_demand false client_id f t by o other = omega arith

waits_open : (other c f t by : ℤ) → waits other (none_open c f t by) ≡ (c == other)
unfolding waits
waits_open other c f t by = refl

-- A statement of a call raises no demand, unless the client has no open request then.
advance-demand :
    (now : ℕ) (c : Call) (s : Store) (other : ℤ)
    → (pending other (advance now c s).1.transfers + weight (waits other (advance now c s).0)
        ≤ pending other s.transfers + weight (waits other c))
      ⊎ (pending other (advance now c s).1.transfers ≡ 0)
unfolding advance waits
advance-demand now (asked c f t by) s other =
    elim (asked_demand s.up c f t by (newest_where (is_pending_for c) s.transfers) other s.transfers
      (newest_where-none (is_pending_for c) s.transfers)) [
        | inl e ↦ inl (omega (arith, e))
        | inr e ↦ inr e
      ]
advance-demand now (looked c f t by) s other = inl (
    omega (
      arith,
      looked_demand s.up c f t by
          (newest_where (λ r. is_pending_for c r && (r.to_org_id == t)) s.transfers) other,
    ))
advance-demand now (none_open c f t by) s other = inl (
    unfold insert_transfer in
    ground (arith, pending_new s c f t by none now other, waits_open other c f t by))
advance-demand now (returned r) s other = inl (omega arith)

-- The call that a connection makes, once its last one has returned.
unfoldable pub start_at : ℕ → Call → List Call → List Call
start_at i new [] = []
start_at zero new (returned r ∷ calls) = new ∷ calls
start_at zero new (c ∷ calls) = c ∷ calls
start_at (suc i) new (c ∷ calls) = c ∷ start_at i new calls

-- The next statement of the call of a connection.
unfoldable pub go_at : ℕ → ℕ → List Call → Store → List Call × Store
go_at i now [] s = ([], s)
go_at zero now (c ∷ calls) s = let (c', s') = advance now c s in (c' ∷ calls, s')
go_at (suc i) now (c ∷ calls) s = let (calls', s') = go_at i now calls s in (c ∷ calls', s')

begin-idle : (c f t by other : ℤ) → waits other (begin_call c f t by) ≡ false
unfolding begin_call waits
begin-idle c f t by other = elim (Bool-cases (f == t)) [ inl e ↦ rw e refl | inr e ↦ rw e refl ]

pub start-waiting :
    (i : ℕ) (c f t by other : ℤ) (calls : List Call)
    → (waiting other (start_at i (begin_call c f t by) calls) ≡ waiting other calls)
      × (length (start_at i (begin_call c f t by) calls) ≡ length calls)
unfolding start_at count
start-waiting i c f t by other [] = (refl, refl)
start-waiting zero c f t by other (returned r ∷ calls) =
    (rw (begin-idle c f t by other) (unfold waits in refl), refl)
start-waiting zero c f t by other (asked _ _ _ _ ∷ calls) = (refl, refl)
start-waiting zero c f t by other (looked _ _ _ _ ∷ calls) = (refl, refl)
start-waiting zero c f t by other (none_open _ _ _ _ ∷ calls) = (refl, refl)
start-waiting (suc i) c f t by other (x ∷ calls) =
    let (same, long) = start-waiting i c f t by other calls in (ground (arith, same), ap suc long)

pub length-go_at :
    (i now : ℕ) (calls : List Call) (s : Store) → length (go_at i now calls s).0 ≡ length calls
unfolding go_at
length-go_at i now [] s = refl
length-go_at zero now (c ∷ calls) s = refl
length-go_at (suc i) now (c ∷ calls) s = ap suc (length-go_at i now calls s)

waiting-first :
    (other : ℤ) (c : Call) (calls : List Call)
    → waiting other (c ∷ calls) ≡ weight (waits other c) + waiting other calls
unfolding count
waiting-first other c calls = ground arith

weight-le : (b : Bool) → weight b ≤ 1
weight-le true = omega arith
weight-le false = omega arith

-- A statement of a connection raises no demand, or leaves it within the number of connections.
pub go-demand :
    (i now : ℕ) (calls : List Call) (s : Store) (other : ℤ)
    → (demand other (go_at i now calls s).0 (go_at i now calls s).1 ≤ demand other calls s)
      ⊎ (demand other (go_at i now calls s).0 (go_at i now calls s).1 ≤ length calls)
unfolding go_at
go-demand i now [] s other = inl (omega arith)
go-demand zero now (c ∷ calls) s other =
    let after = waiting-first other (advance now c s).0 calls in
    let before = waiting-first other c calls in
    elim (advance-demand now c s other) [
      | inl e ↦ inl (omega (arith, after, before, e))
      | inr e ↦ inr (
          omega (
            arith,
            after,
            e,
            weight-le (waits other (advance now c s).0),
            count-le-length (waits other) calls,
          ))
    ]
go-demand (suc i) now (c ∷ calls) s other =
    let after = waiting-first other c (go_at i now calls s).0 in
    let before = waiting-first other c calls in
    elim (go-demand i now calls s other) [
      | inl e ↦ inl (omega (arith, after, before, e))
      | inr e ↦ inr (omega (arith, after, e, weight-le (waits other c)))
    ]
