-- ===== src/Db/Transfers.antt =====
-- internal/db/transfer.go: the transfer requests, and the organization of a client.
pub mod Latest
pub mod Calls
pub mod Pending
use go_signing_server_anywhe.Prelude.{
  ℕ, zero, suc, ◌+◌, ◌-◌, ◌*◌, ◌/◌, ◌%◌, ◌^◌, ◌≤◌, ◌<◌, String, ◌≡◌, refl, sym, ap, ◌∙◌, ◌≢◌, ◌↔◌,
  ◌⊎◌, inl, inr, Bool, true, false, not, ◌&&◌, ◌||◌, Option, none, some, List, [], ◌∷◌, ◌++◌, map,
  arith, eq_iff, ltb, leb, nat_beq, if◌then◌else◌, ltb→lt, lt→ltb, leb→le, le→leb, nat_beq_iff,
  tests, Bool-cases, Option-cases, ℤ, pos, negsuc, pos_part, neg_part, sub_ℕ, ◌+ℤ◌, ◌-ℤ◌, ◌≤ℤ◌,
  ◌<ℤ◌, ltb_ℤ, leb_ℤ, int_beq, int_beq_iff, Eq, ◌==◌, ◌!=◌, nat_eq, int_eq, string_eq, string_beq,
  string_beq_iff, beq_refl, length, take, keep, count, length-append, length-keep-le,
  length-keep-count, keep-append, has, add, remove, IsSetList, has-add, has-remove, add-IsSetList,
  remove-IsSetList, remove_absent, length-remove, length-remove-le,
}
use go_signing_server_anywhe.Db.Tables.{ClientRow, TransferRow, Store, update_where, find_where}

unfoldable pub has_id : ℤ → ClientRow → Bool
has_id id c = c.id == id

unfoldable pub move_to : ℤ → ClientRow → ClientRow
move_to org_id c = record c { org_id = org_id; pending_org_id = none }

-- `UPDATE clients SET org_id = $1, pending_org_id = NULL WHERE id = $2`
unfoldable pub set_client_org_now : ℤ → ℤ → Store → Option Store
set_client_org_now client_id org_id s =
    if s.up
    then some (record s { clients = update_where (has_id client_id) (move_to org_id) s.clients })
    else none

-- ORDER BY updated_at DESC, id DESC: whether `a` comes before `b`
unfoldable pub later : TransferRow → TransferRow → Bool
later a b = ltb b.updated_at a.updated_at || ((a.updated_at == b.updated_at) && ltb_ℤ b.id a.id)

-- The approved transfer of a client that is first in that order.
unfoldable pub latest_approved : ℤ → List TransferRow → Option TransferRow
latest_approved client_id [] = none
latest_approved client_id (t ∷ ts) =
    let rest = latest_approved client_id ts in
    if (t.client_id == client_id) && (t.status == "approved")
    then (elim rest [ none ↦ some t | some u ↦ some (if later t u then t else u) ])
    else rest

-- One row of the reconciling update.
unfoldable pub reconcile_row : List TransferRow → ClientRow → ClientRow
reconcile_row transfers c = elim (latest_approved c.id transfers) [
  | none ↦ c
  | some t ↦ if (c.disabled == pos 0) && (c.org_id != t.to_org_id) then move_to t.to_org_id c else c
]

-- An error is ignored by every caller, so the store is then unchanged.
unfoldable pub reconcile_client_orgs : Store → Store
reconcile_client_orgs s =
    if s.up then record s { clients = map (reconcile_row s.transfers) s.clients } else s

unfoldable pub is_pending_for : ℤ → TransferRow → Bool
is_pending_for client_id t = (t.client_id == client_id) && (t.status == "pending")

-- SET status = …, approved_by_admin_id = …, updated_at = …
unfoldable pub settle : String → ℤ → ℕ → TransferRow → TransferRow
settle status approved_by now t = record t {
  status = status;
  approved_by_admin_id = some approved_by;
  updated_at = now;
}

-- Closes the open requests of a client; an error is ignored by the caller.
unfoldable pub resolve_pending_transfers : ℤ → ℤ → ℕ → Store → Store
unfolding is_pending_for
resolve_pending_transfers client_id approved_by now s =
    if s.up
    then record s {
      transfers =
          update_where (is_pending_for client_id) (settle "approved" approved_by now) s.transfers;
    }
    else s

-- CreateTransferResult, or the error of the driver
pub data CreateTransferResult : Type 0 where
  created : ℤ → Bool → CreateTransferResult
  refused : String → String → CreateTransferResult
  failed : CreateTransferResult

unfoldable pub new_transfer : Store → ℤ → ℤ → ℤ → ℤ → Option ℤ → String → ℕ → TransferRow
new_transfer s client_id from_org to_org requested_by approved_by status now = record {
  id = pos s.next_id;
  client_id = client_id;
  from_org_id = from_org;
  to_org_id = to_org;
  requested_by_admin_id = requested_by;
  approved_by_admin_id = approved_by;
  status = status;
  created_at = now;
  updated_at = now;
}

unfoldable pub insert_transfer : TransferRow → Store → Store
insert_transfer t s = record s { next_id = suc s.next_id; transfers = t ∷ s.transfers }

-- The highest id among the rows that a test names (`ORDER BY id DESC LIMIT 1`).
unfoldable pub newest_where : (TransferRow → Bool) → List TransferRow → Option ℤ
newest_where p [] = none
newest_where p (t ∷ ts) =
    let rest = newest_where p ts in
    if p t
    then (elim rest [ none ↦ some t.id | some id ↦ some (if ltb_ℤ id t.id then t.id else id) ])
    else rest

-- Where a call of CreateTransferRequest stands: before its first query, its second one, or its
-- insert, or at its end. These are statements of their own, outside a transaction, between which
-- those of other connections may run. The fields are the client, both organizations and the admin.
pub data Call : Type 0 where
  asked : (client_id from_org to_org by : ℤ) → Call
  looked : (client_id from_org to_org by : ℤ) → Call
  none_open : (client_id from_org to_org by : ℤ) → Call
  returned : CreateTransferResult → Call

unfoldable pub begin_call : ℤ → ℤ → ℤ → ℤ → Call
begin_call client_id from_org to_org by =
    if from_org == to_org
    then returned (refused "INVALID_INPUT" "Source and target organizations must differ")
    else asked client_id from_org to_org by

-- After a query: the id that it found ends the call.
unfoldable pub unless_found : Option ℤ → Call → Call
unless_found none next = next
unless_found (some id) next = returned (created id true)

-- The next statement of a call.
unfoldable pub advance : ℕ → Call → Store → Call × Store
unfolding is_pending_for newest_where new_transfer insert_transfer unless_found
advance now (asked client_id from_org to_org by) s = (
  if s.up
      then unless_found (newest_where (is_pending_for client_id) s.transfers)
          (looked client_id from_org to_org by)
      else returned failed,
  s,
)
advance now (looked client_id from_org to_org by) s = (
  if s.up
      then unless_found
          (newest_where (λ t. is_pending_for client_id t && (t.to_org_id == to_org)) s.transfers)
          (none_open client_id from_org to_org by)
      else returned failed,
  s,
)
advance now (none_open client_id from_org to_org by) s =
    if s.up
    then (
      returned (created (pos s.next_id) false),
      insert_transfer (new_transfer s client_id from_org to_org by none "pending" now) s,
    )
    else (returned failed, s)
advance now (returned r) s = (returned r, s)

-- A call is over after three statements.
unfoldable pub result_of : Call → CreateTransferResult
result_of (returned r) = r
result_of _ = failed

-- A call whose statements run one after the other with none between them.
unfoldable pub create_transfer_request : ℤ → ℤ → ℤ → ℤ → ℕ → Store → CreateTransferResult × Store
unfolding begin_call advance result_of
create_transfer_request client_id from_org to_org requested_by now s =
    let (c1, s1) = advance now (begin_call client_id from_org to_org requested_by) s in
    let (c2, s2) = advance now c1 s1 in let (c3, s3) = advance now c2 s2 in (result_of c3, s3)

unfoldable pub create_transfer_request_approved :
    ℤ → ℤ → ℤ → ℤ → ℤ → ℕ → Store → CreateTransferResult × Store
unfolding new_transfer insert_transfer
create_transfer_request_approved client_id from_org to_org requested_by approved_by now s =
    if s.up
    then (
      created (pos s.next_id) false,
      insert_transfer
          (new_transfer s client_id from_org to_org requested_by (some approved_by) "approved" now)
          s,
    )
    else (failed, s)

-- The joined row also carries the client's name.
unfoldable pub get_transfer_request : ℤ → Store → Option TransferRow
get_transfer_request id s = if s.up then find_where (λ t. t.id == id) s.transfers else none

unfoldable pub update_transfer_status : ℤ → String → ℤ → ℕ → Store → Store
update_transfer_status id status approved_by now s =
    if s.up
    then record s {
      transfers = update_where (λ t. t.id == id) (settle status approved_by now) s.transfers;
    }
    else s

-- The statements of `applyClientOrgTransfer` (internal/hub/transfer.go); only the first can refuse.
unfoldable pub move_client : ℤ → ℤ → ℤ → ℕ → Store → Option Store
move_client client_id to_org by now s = elim (set_client_org_now client_id to_org s) [
  | none ↦ none
  | some moved ↦
      let s' = reconcile_client_orgs moved in
      some (if ltb_ℤ (pos 0) by then resolve_pending_transfers client_id by now s' else s')
]
