-- ===== src/Db/Transfers/Pending.antt =====
-- How many open transfer requests a client may get (internal/db/transfer.go).
use go_signing_server_anywhe.Prelude.{
  ◌∙◌, ℕ, ◌≤◌, inl, inr, length, String, ◌≡◌, refl, Bool, true, false, some, List, [], ◌∷◌, arith,
  ℤ, ◌==◌, nat_eq, int_eq, string_eq, string_beq,
}
use go_signing_server_anywhe.Db.Tables.{Store}
use go_signing_server_anywhe.Db.Transfers.{
  is_pending_for, insert_transfer, Call, begin_call, create_transfer_request_approved,
  resolve_pending_transfers, update_transfer_status,
}
use go_signing_server_anywhe.Db.Transfers.Calls.{
  pending, demand, start_at, go_at, start-waiting, length-go_at, go-demand, count-settle,
  pending_new_approved,
}

-- The connections, each with its call, and the database.
pub record Traffic : Type 0 where
  pub calls : List Call
  pub store : Store

-- The two statuses that an answer sets.
unfoldable pub answer : Bool → String
answer true = "approved"
answer false = "rejected"

-- A statement on the table of transfer requests: a connection begins a call of
-- CreateTransferRequest, or runs the next statement of its call, or a handler runs another one.
pub data Statement : Type 0 where
  request : (connection : ℕ) (client_id from_org to_org by : ℤ) → Statement
  go_on : (connection : ℕ) (now : ℕ) → Statement
  request_approved : (client_id from_org to_org by approved_by : ℤ) (now : ℕ) → Statement
  resolve : (client_id by : ℤ) (now : ℕ) → Statement
  respond : (id : ℤ) (approve : Bool) (by : ℤ) (now : ℕ) → Statement

unfoldable pub execute : Statement → Traffic → Traffic
unfolding start_at go_at
execute (request i c f t by) x = record x { calls = start_at i (begin_call c f t by) x.calls }
execute (go_on i now) x = record {
  calls = (go_at i now x.calls x.store).0;
  store = (go_at i now x.calls x.store).1;
}
execute (request_approved c f t by a now) x = record x {
  store = (create_transfer_request_approved c f t by a now x.store).1;
}
execute (resolve c by now) x = record x { store = resolve_pending_transfers c by now x.store }
execute (respond id approve by now) x = record x {
  store = update_transfer_status id (answer approve) by now x.store;
}

final_status : (approve : Bool) → (answer approve == "pending") ≡ false
unfolding string_beq answer
final_status true = refl
final_status false = refl

-- For every client there are at most `n` open requests and calls that may add one.
abbrev pub Within : ℕ → Traffic → Type 0
Within n x = (length x.calls ≡ n) × ((client_id : ℤ) → demand client_id x.calls x.store ≤ n)

execute-Within : (n : ℕ) (st : Statement) (x : Traffic) → Within n x → Within n (execute st x)
unfolding execute create_transfer_request_approved insert_transfer resolve_pending_transfers
    update_transfer_status
execute-Within n (request i c f t by) x (long, small) = (
  (start-waiting i c f t by c x.calls).1 ∙ long,
  λ other. rw (start-waiting i c f t by other x.calls).0 (small other),
)
execute-Within n (go_on i now) x (long, small) = (
  length-go_at i now x.calls x.store ∙ long,
  λ other. elim (go-demand i now x.calls x.store other) [
    | inl e ↦ omega (arith, e, small other)
    | inr e ↦ omega (arith, e, long)
  ],
)
execute-Within n (request_approved c f t by a now) x (long, small) = (
  long,
  λ other. ground (arith, pending_new_approved x.store c f t by (some a) now other, small other),
)
execute-Within n (resolve c by now) x (long, small) = (
  long,
  λ other. ground (
    arith,
    count-settle (is_pending_for c) "approved" by now other (unfold answer in final_status true)
        x.store.transfers,
    small other,
  ),
)
execute-Within n (respond id approve by now) x (long, small) = (
  long,
  λ other. ground (
    arith,
    count-settle (λ t. t.id == id) (answer approve) by now other (final_status approve)
        x.store.transfers,
    small other,
  ),
)

unfoldable pub execute_all : List Statement → Traffic → Traffic
execute_all [] x = x
execute_all (st ∷ sts) x = execute_all sts (execute st x)

execute_all-Within :
    (n : ℕ) (sts : List Statement) (x : Traffic) → Within n x → Within n (execute_all sts x)
unfolding execute_all
execute_all-Within n [] x h = h
execute_all-Within n (st ∷ sts) x h =
    execute_all-Within n sts (execute st x) (execute-Within n st x h)

-- Between `n` connections whose statements interleave in any order, a client never has more than
-- `n` open requests, where the requests and the calls at work were within that number before. So
-- one connection alone, whose calls run one after another, never gives a client two; several may,
-- since CreateTransferRequest is no transaction.
pub execute_all-pending :
    (n : ℕ) (sts : List Statement) (x : Traffic)
    → Within n x
    → (client_id : ℤ) → pending client_id (execute_all sts x).store.transfers ≤ n
execute_all-pending n sts x h client_id = omega (arith, (execute_all-Within n sts x h).1 client_id)
