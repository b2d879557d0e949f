-- ===== src/Hub/Transfer/Authority.antt =====
-- What the messages of internal/hub/transfer.go do to the database, and who may make them do it.
use go_signing_server_anywhe.Prelude.{
  String, ◌≡◌, refl, ◌∙◌, inl, inr, true, false, ◌&&◌, Option, none, some, arith, if◌then◌else◌,
  Bool-cases, Option-cases, ℤ, pos, ltb_ℤ, ◌==◌, ◌!=◌, nat_eq, int_eq, string_eq, string_beq,
  string_beq_iff,
}
use go_signing_server_anywhe.Db.Tables.{Store, AdminRow, TransferRow}
use go_signing_server_anywhe.Db.Clients.{get_clients_for_org}
use go_signing_server_anywhe.Db.Transfers.{
  move_client, get_transfer_request, update_transfer_status,
}
use go_signing_server_anywhe.Hub.World.{World, Env}
use go_signing_server_anywhe.Hub.Roster.{broadcast_clients}
use go_signing_server_anywhe.Hub.Transfer.{apply_client_org_transfer, broadcast_transfer_event}
use go_signing_server_anywhe.Hub.Transfer.Outcome.{
  permitted, answered, settled_store, answered-closed, answered_closed,
}
use go_signing_server_anywhe.Hub.Transfer.Requests.{settle_request, can_act, answer_transfer}

pub broadcast_clients-store :
    (env : Env) (org : ℤ) (w : World) → (broadcast_clients env org w).store ≡ w.store
unfolding broadcast_clients
broadcast_clients-store env org w = elim (Option-cases (get_clients_for_org org w.store)) [
  | inl e ↦ rw (e, broadcast_clients) refl
  | inr (rows, e) ↦ rw (e, broadcast_clients) refl
]

-- The store of a world, where there is one.
unfoldable pub store_of : Option World → Option Store
store_of none = none
store_of (some w) = some w.store

pub apply-store :
    (env : Env) (c from_org to_org by : ℤ) (w : World)
    → store_of (apply_client_org_transfer env c from_org to_org by w)
      ≡ move_client c to_org by env.now w.store
unfolding apply_client_org_transfer store_of
apply-store env c from_org to_org by w =
    elim (Option-cases (move_client c to_org by env.now w.store)) [
      | inl e ↦ rw (e, apply_client_org_transfer) refl
      | inr (s, e) ↦
          rw (e, apply_client_org_transfer)
            (elim (Bool-cases (ltb_ℤ (pos 0) from_org && (from_org != to_org))) [
              | inl t ↦ rw (t, broadcast_clients-store, broadcast_clients-store) refl
              | inr t ↦ rw (t, broadcast_clients-store) refl
            ])
    ]

settle_request-store :
    (env : Env) (sid : String) (a : AdminRow) (t : TransferRow) (action : String) (w : World)
    → (settle_request env sid a t action w).store ≡ (
        if action == "approve"
        then (elim (move_client t.client_id t.to_org_id a.admin_id env.now w.store) [
          | none ↦ w.store
          | some moved ↦ update_transfer_status t.id "approved" a.admin_id env.now moved
        ])
        else update_transfer_status t.id "rejected" a.admin_id env.now w.store)
unfolding settle_request store_of broadcast_transfer_event
settle_request-store env sid a t action w =
    rw⁻¹ (apply-store env t.client_id t.from_org_id t.to_org_id a.admin_id w)
      (elim (Bool-cases (action == "approve")) [
        | inr b ↦ rw (b, settle_request) refl
        | inl b ↦
            rw (b, settle_request)
              (elim (Option-cases (
                apply_client_org_transfer env t.client_id t.from_org_id t.to_org_id a.admin_id w)) [
                  | inl e ↦ rw e refl
                  | inr (moved, e) ↦ rw e refl
                ])
      ])

other_role : string_beq "super_admin" "org_admin" ≡ false
unfolding string_beq
other_role = refl

one_role : (r : String) → string_beq r "super_admin" ≡ true → string_beq r "org_admin" ≡ false
one_role r h = rw ((string_beq_iff r "super_admin").0 h) other_role

-- The handler of an answer changes the database as `answered` says, whatever it sends and to whom.
-- Only an open request is settled, by a super admin, or by the team lead of the organization that
-- the client goes to while the transfer feature is on, and only while the database is there. A
-- refusal closes the request. An approval moves its client, takes every enabled client to where its
-- latest approved request brought it, and closes the request, and by an admin whose number is
-- positive also the other open ones of the client.
pub answer_transfer-store :
    (env : Env) (sid : String) (a : AdminRow) (t : TransferRow) (action : String) (w : World)
    → (answer_transfer env sid a t action w).store ≡ answered env.now a t action w.store
unfolding answer_transfer answered permitted can_act
answer_transfer-store env sid a t action w = ground (
  arith,
  settle_request-store env sid a t action w,
  settled_store a.admin_id env.now t action w.store,
  one_role a.role,
)

-- A request is settled once: after an answer that was permitted, whoever answers the request as it
-- is then read, and however, changes nothing in the database.
pub answer_transfer_once :
    (env env' : Env) (sid sid' : String) (a b : AdminRow) (t t' : TransferRow)
    → (action action' : String) (w : World) → permitted a t w.store ≡ true
    → get_transfer_request t.id (answer_transfer env sid a t action w).store ≡ some t'
    → (answer_transfer env' sid' b t' action' (answer_transfer env sid a t action w)).store
      ≡ (answer_transfer env sid a t action w).store
answer_transfer_once env env' sid sid' a b t t' action action' w may again =
    answer_transfer-store env' sid' b t' action' (answer_transfer env sid a t action w)
    ∙ answered_closed env'.now b t' action' (answer_transfer env sid a t action w).store (
        answered-closed env.now a t t' action w.store may
          (rw⁻¹ (answer_transfer-store env sid a t action w) again))
