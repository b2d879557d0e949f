-- ===== src/Examples/DbRuns.antt =====
-- Runs of the statements on the tables.
use go_signing_server_anywhe.Prelude.{
  length, ◌≤◌, ◌≡◌, refl, true, some, List, [], ◌∷◌, ◌++◌, arith, pos, int_beq, nat_eq, int_eq,
  string_eq, string_beq, count,
}
use mathlib.Core.Option
use go_signing_server_anywhe.Db.Tables.{Store, GrantRow, find_where, update_where}
use go_signing_server_anywhe.Db.Transfers.{
  move_client, set_client_org_now, has_id, move_to, reconcile_client_orgs,
  resolve_pending_transfers, returned, failed, begin_call, advance, unless_found, newest_where,
  is_pending_for, new_transfer, insert_transfer,
}
use go_signing_server_anywhe.Db.Transfers.Calls.{pending, waits, start_at, go_at}
use go_signing_server_anywhe.Db.Transfers.Pending.{
  Traffic, Statement, Within, request, go_on, execute, execute_all, execute_all-pending,
}
use go_signing_server_anywhe.Db.Transfers.Latest.{client_by_id, final_org, move_client-org}
use go_signing_server_anywhe.Db.Grants.{get_active, expire, is_active, expires_after, ends_before}
use go_signing_server_anywhe.Db.Grants.Latest.{IsLatest}
use go_signing_server_anywhe.Db.Grants.Life.{
  is_closed, run_all, run_all-closed, approve_it, expire_all, expire-get_active,
  Statement as GrantStatement,
}
use go_signing_server_anywhe.Examples.Data.{a_store, a_client, a_grant}

abbrev no_transfers : Store
no_transfers = record a_store { transfers = [] }

-- Two connections at rest.
abbrev two_connections : Traffic
two_connections = record { calls = returned failed ∷ returned failed ∷ []; store = no_transfers }

-- Both ask for the same client, and each queries before the other one inserts.
abbrev race : List Statement
race =
    request 0 (pos 7) (pos 1) (pos 2) (pos 3)
    ∷ request 1 (pos 7) (pos 1) (pos 4) (pos 9)
    ∷ go_on 0 10
    ∷ go_on 1 11
    ∷ go_on 0 12
    ∷ go_on 1 13
    ∷ go_on 0 14
    ∷ go_on 1 15
    ∷ []

none_pending : Within 2 two_connections
unfolding count waits
none_pending = (refl, λ id. omega arith)

execute_all-pending_example : pending (pos 7) (execute_all race two_connections).store.transfers ≤ 2
execute_all-pending_example = execute_all-pending 2 race two_connections none_pending (pos 7)

-- The bound is met: the client has two open requests.
both_open : pending (pos 7) (execute_all race two_connections).store.transfers ≡ 2
unfolding execute_all execute start_at go_at begin_call advance unless_found newest_where
    is_pending_for new_transfer insert_transfer count string_beq int_beq
both_open = refl

abbrev moved_store : Store
moved_store =
    resolve_pending_transfers (pos 7) (pos 9) 50
      (reconcile_client_orgs (record a_store { clients = move_to (pos 2) a_client ∷ [] }))

moved : move_client (pos 7) (pos 2) (pos 9) 50 a_store ≡ some moved_store
unfolding move_client set_client_org_now update_where has_id move_to int_beq
moved = refl

there : client_by_id (pos 7) a_store ≡ some a_client
unfolding client_by_id find_where has_id int_beq
there = refl

move_client-org_example :
    Option.map (λ r. r.org_id) (client_by_id (pos 7) moved_store)
    ≡ some (final_org a_store.transfers (pos 2) a_client)
move_client-org_example =
    move_client-org (pos 7) (pos 2) (pos 9) 50 a_store moved_store a_client moved there

abbrev denied_grant : GrantRow
denied_grant = record a_grant { status = "denied"; approved_by = some (pos 9) }

denied : is_closed denied_grant ≡ true
unfolding is_closed string_beq
denied = refl

abbrev later_statements : List GrantStatement
later_statements = approve_it (pos 21) (pos 9) 60 ∷ expire_all 70 ∷ []

run_all-closed_example :
    (zs : List GrantRow) × (run_all later_statements (a_grant ∷ denied_grant ∷ a_grant ∷ [])
      ≡ run_all later_statements (a_grant ∷ []) ++ denied_grant ∷ zs)
    × (length zs ≡ length {A = GrantRow} (a_grant ∷ []))
run_all-closed_example =
    run_all-closed later_statements (a_grant ∷ []) denied_grant (a_grant ∷ []) denied

abbrev granted : GrantRow
granted = record a_grant {
  status = "approved";
  approved_by = some (pos 9);
  expires_at = some (pos 100);
}

abbrev longer : GrantRow
longer = record granted { id = pos 22; expires_at = some (pos 200) }

-- The grant that expires last is found, whichever was made last.
longer_found : get_active (pos 3) 60 (granted ∷ longer ∷ []) ≡ some longer
unfolding get_active is_active expires_after ends_before string_beq int_beq
longer_found = refl

expire-get_active_example :
    (get_active (pos 3) 60 (expire 50 (granted ∷ longer ∷ []))
      ≡ get_active (pos 3) 60 (granted ∷ longer ∷ []))
    × IsLatest (pos 3) 60 (granted ∷ longer ∷ []) (get_active (pos 3) 60 (granted ∷ longer ∷ []))
expire-get_active_example = expire-get_active (pos 3) 50 60 (granted ∷ longer ∷ []) (omega arith)
