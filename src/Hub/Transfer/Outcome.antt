-- ===== src/Hub/Transfer/Outcome.antt =====
-- What an answer to a transfer request should do to the database (internal/hub/transfer.go), said of
-- each row by itself.
use go_signing_server_anywhe.Prelude.{
  ℕ, String, ◌≡◌, refl, inl, inr, Bool, true, false, not, ◌&&◌, ◌||◌, Option, none, some, List, [],
  ◌∷◌, map, arith, if◌then◌else◌, Bool-cases, Option-cases, ℤ, pos, ltb_ℤ, ◌==◌, ◌!=◌, nat_eq,
  int_eq, string_eq, string_beq,
}
use go_signing_server_anywhe.Db.Tables.{
  Store, AdminRow, ClientRow, TransferRow, find_where, update_where,
}
use go_signing_server_anywhe.Db.Transfers.{
  has_id, move_to, set_client_org_now, latest_approved, reconcile_row, reconcile_client_orgs,
  is_pending_for, settle, resolve_pending_transfers, update_transfer_status, move_client,
  get_transfer_request,
}
use go_signing_server_anywhe.Hub.Transfer.{feature_on}

-- Whether an admin may settle a request: it is open, and a super admin answers, or the team lead of
-- the organization that the client goes to, while team leads have the transfer feature.
unfoldable pub permitted : AdminRow → TransferRow → Store → Bool
permitted a t s =
    (t.status == "pending")
    && ((a.role == "super_admin")
        || ((a.role == "org_admin") && (a.org_id == t.to_org_id) && feature_on "transfer_tab" s))

-- A request after the answer `status` by `by`.
unfoldable pub closed_as : String → ℤ → ℕ → TransferRow → TransferRow
closed_as status by now r = record r {
  status = status;
  approved_by_admin_id = some by;
  updated_at = now;
}

-- A request after a refusal of `t`.
unfoldable pub refused_row : TransferRow → ℤ → ℕ → TransferRow → TransferRow
unfolding closed_as
refused_row t by now r = if r.id == t.id then closed_as "rejected" by now r else r

-- A request after an approval of `t`: it is approved if it is `t`, or another open one of the
-- same client.
unfoldable pub approved_row : TransferRow → ℤ → ℕ → TransferRow → TransferRow
unfolding closed_as
approved_row t by now r =
    if (r.id == t.id)
      || (ltb_ℤ (pos 0) by && (r.client_id == t.client_id) && (r.status == "pending"))
    then closed_as "approved" by now r
    else r

-- A client in the organization of `org`, which it no longer waits for.
unfoldable pub placed_in : ℤ → ClientRow → ClientRow
placed_in org c = record c { org_id = org; pending_org_id = none }

-- A client that is enabled and not where its latest request brought it is taken there.
unfoldable pub taken_on : Option TransferRow → ClientRow → ClientRow
unfolding placed_in
taken_on none c = c
taken_on (some u) c =
    if (c.disabled == pos 0) && (c.org_id != u.to_org_id) then placed_in u.to_org_id c else c

-- A client after an approval of `t`: the client of `t` is moved, and then every client may be taken
-- on by its latest approved request among `ts`.
unfoldable pub approved_client : TransferRow → List TransferRow → ClientRow → ClientRow
unfolding taken_on
approved_client t ts c =
    taken_on (latest_approved c.id ts) (if c.id == t.client_id then placed_in t.to_org_id c else c)

-- The database after an answer; without a connection to it nothing changes.
unfoldable pub answered : ℕ → AdminRow → TransferRow → String → Store → Store
answered now a t action s =
    if not (s.up && permitted a t s)
    then s
    else if action == "approve"
    then record s {
      clients = map (approved_client t s.transfers) s.clients;
      transfers = map (approved_row t a.admin_id now) s.transfers;
    }
    else record s { transfers = map (refused_row t a.admin_id now) s.transfers }

refused_rows :
    (t : TransferRow) (by : ℤ) (now : ℕ) (rs : List TransferRow)
    → update_where (λ r. r.id == t.id) (settle "rejected" by now) rs ≡ map (refused_row t by now) rs
unfolding update_where settle refused_row closed_as
refused_rows t by now [] = refl
refused_rows t by now (r ∷ rs) = ground (arith, refused_rows t by now rs)

-- The requests of the client are closed, unless the admin is none, and then the one by its id.
both_rows :
    (t : TransferRow) (by : ℤ) (now : ℕ) (rs : List TransferRow)
    → update_where
        (λ r. r.id == t.id)
        (settle "approved" by now)
        (if ltb_ℤ (pos 0) by
          then update_where (is_pending_for t.client_id) (settle "approved" by now) rs
          else rs)
      ≡ map (approved_row t by now) rs
unfolding update_where settle is_pending_for approved_row closed_as
both_rows t by now [] = ground arith
both_rows t by now (r ∷ rs) = ground (arith, both_rows t by now rs)

latest_row :
    (ts : List TransferRow) (c : ClientRow)
    → reconcile_row ts c ≡ taken_on (latest_approved c.id ts) c
unfolding reconcile_row move_to taken_on placed_in
latest_row ts c = elim (Option-cases (latest_approved c.id ts)) [
  | inl n ↦ rw (n, reconcile_row) refl
  | inr (u, n) ↦ rw (n, reconcile_row) refl
]

moved_row :
    (b : Bool) (t : TransferRow) (ts : List TransferRow) (c : ClientRow)
    → reconcile_row ts (if b then move_to t.to_org_id c else c)
      ≡ taken_on (latest_approved c.id ts) (if b then placed_in t.to_org_id c else c)
unfolding move_to placed_in
moved_row true t ts c = latest_row ts (move_to t.to_org_id c)
moved_row false t ts c = latest_row ts c

one_client :
    (t : TransferRow) (ts : List TransferRow) (c : ClientRow)
    → reconcile_row ts (if has_id t.client_id c then move_to t.to_org_id c else c)
      ≡ approved_client t ts c
unfolding has_id approved_client
one_client t ts c = moved_row (c.id == t.client_id) t ts c

all_clients :
    (t : TransferRow) (ts : List TransferRow) (cs : List ClientRow)
    → map (reconcile_row ts) (update_where (has_id t.client_id) (move_to t.to_org_id) cs)
      ≡ map (approved_client t ts) cs
unfolding update_where
all_clients t ts [] = refl
all_clients t ts (c ∷ cs) = ground (arith, one_client t ts c, all_clients t ts cs)

-- The statements of an approval, where the database is there.
approved_store :
    (by : ℤ) (now : ℕ) (t : TransferRow) (s : Store)
    → s.up ≡ true
    → (elim (move_client t.client_id t.to_org_id by now s) [
      | none ↦ s
      | some moved ↦ update_transfer_status t.id "approved" by now moved
    ])
      ≡ record s {
        clients = map (approved_client t s.transfers) s.clients;
        transfers = map (approved_row t by now) s.transfers;
      }
unfolding move_client set_client_org_now reconcile_client_orgs resolve_pending_transfers
    update_transfer_status
approved_store by now t s up =
    ground (arith, up, all_clients t s.transfers s.clients, both_rows t by now s.transfers)

-- The statements of an answer that was let through.
pub settled_store :
    (by : ℤ) (now : ℕ) (t : TransferRow) (action : String) (s : Store)
    → (if action == "approve"
        then (elim (move_client t.client_id t.to_org_id by now s) [
          | none ↦ s
          | some moved ↦ update_transfer_status t.id "approved" by now moved
        ])
        else update_transfer_status t.id "rejected" by now s)
      ≡ (if not s.up
          then s
          else if action == "approve"
          then record s {
            clients = map (approved_client t s.transfers) s.clients;
            transfers = map (approved_row t by now) s.transfers;
          }
          else record s { transfers = map (refused_row t by now) s.transfers })
unfolding move_client set_client_org_now update_transfer_status
settled_store by now t action s = elim (Bool-cases s.up) [
  | inl up ↦ ground (arith, up, approved_store by now t s up, refused_rows t by now s.transfers)
  | inr down ↦ ground (arith, down)
]

refused_status :
    (t : TransferRow) (by : ℤ) (now : ℕ) (rs : List TransferRow) (t' : TransferRow)
    → find_where (λ r. r.id == t.id) (map (refused_row t by now) rs) ≡ some t'
    → t'.status ≡ "rejected"
unfolding find_where refused_row closed_as
refused_status t by now [] t' e = absurd (ground arith)
refused_status t by now (r ∷ rs) t' e = elim (Bool-cases (r.id == t.id)) [
  | inl h ↦ ground (arith, h)
  | inr h ↦ refused_status t by now rs t' (ground (arith, h))
]

approved_row-id :
    (t : TransferRow) (by : ℤ) (now : ℕ) (r : TransferRow) → (approved_row t by now r).id ≡ r.id
unfolding approved_row closed_as
approved_row-id t by now r = ground arith

approved_status :
    (t : TransferRow) (by : ℤ) (now : ℕ) (rs : List TransferRow) (t' : TransferRow)
    → find_where (λ r. r.id == t.id) (map (approved_row t by now) rs) ≡ some t'
    → t'.status ≡ "approved"
unfolding find_where approved_row closed_as
approved_status t by now [] t' e = absurd (ground arith)
approved_status t by now (r ∷ rs) t' e = elim (Bool-cases (r.id == t.id)) [
  | inl h ↦ ground (arith, h)
  | inr h ↦ approved_status t by now rs t' (ground (arith, h, approved_row-id t by now r))
]

closed_no : string_beq "rejected" "pending" ≡ false
unfolding string_beq
closed_no = refl

closed_yes : string_beq "approved" "pending" ≡ false
unfolding string_beq
closed_yes = refl

-- A request that was settled by right is closed when it is read again.
pub answered-closed :
    (now : ℕ) (a : AdminRow) (t t' : TransferRow) (action : String) (s : Store)
    → permitted a t s ≡ true
    → get_transfer_request t.id (answered now a t action s) ≡ some t'
    → (t'.status == "pending") ≡ false
unfolding answered get_transfer_request
answered-closed now a t t' action s may e = elim (Bool-cases s.up) [
  | inr down ↦ absurd (ground (arith, down))
  | inl up ↦ elim (Bool-cases (action == "approve")) [
    | inl h ↦
        rw (approved_status t a.admin_id now s.transfers t' (ground (arith, h, up, may))) closed_yes
    | inr h ↦
        rw (refused_status t a.admin_id now s.transfers t' (ground (arith, h, up, may))) closed_no
  ]
]

-- A request that is not open is out of reach of every answer.
pub answered_closed :
    (now : ℕ) (a : AdminRow) (t : TransferRow) (action : String) (s : Store)
    → (t.status == "pending") ≡ false
    → answered now a t action s ≡ s
unfolding answered permitted
answered_closed now a t action s h = ground arith
