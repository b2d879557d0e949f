-- ===== src/Hub/Transfer/Creation.antt =====
-- What a request for a transfer does to the clients (internal/hub/transfer.go).
use go_signing_server_anywhe.Prelude.{
  ℕ, String, ◌≡◌, refl, ap, ◌∙◌, inl, inr, Bool, true, false, not, ◌&&◌, none, some, arith,
  if◌then◌else◌, Bool-cases, Option-cases, ℤ, ◌==◌, nat_eq, int_eq, string_eq, string_beq,
  string_beq_iff,
}
use go_signing_server_anywhe.Db.Tables.{Store, AdminRow, ClientRow, is_disabled}
use go_signing_server_anywhe.Db.Transfers.{
  move_client, insert_transfer, CreateTransferResult, created, refused, failed,
  create_transfer_request, create_transfer_request_approved,
}
use go_signing_server_anywhe.Hub.World.{World, Env}
use go_signing_server_anywhe.Hub.Transfer.{apply_client_org_transfer, broadcast_transfer_event}
use go_signing_server_anywhe.Hub.Transfer.Requests.{
  answer_request, request_transfer, instant_transfer, answer_instant, transfer_client,
}
use go_signing_server_anywhe.Hub.Transfer.Authority.{store_of, apply-store}

create-clients :
    (c from_org to_org by : ℤ) (now : ℕ) (s : Store)
    → (create_transfer_request c from_org to_org by now s).1.clients ≡ s.clients
unfolding create_transfer_request insert_transfer
create-clients c from_org to_org by now s = ground arith

answer_request-store :
    (env : Env) (sid : String) (a : AdminRow) (c : ClientRow) (to_org : ℤ)
    (r : CreateTransferResult)
    → (w : World) → (answer_request env sid a c to_org r w).store ≡ w.store
unfolding answer_request broadcast_transfer_event
answer_request-store env sid a c to_org (created id d) w = refl
answer_request-store env sid a c to_org (refused code m) w = refl
answer_request-store env sid a c to_org failed w = refl

request_transfer-clients :
    (env : Env) (sid : String) (a : AdminRow) (c : ClientRow) (to_org : ℤ) (w : World)
    → (request_transfer env sid a c to_org w).store.clients ≡ w.store.clients
unfolding request_transfer
request_transfer-clients env sid a c to_org w =
    ap (λ s. s.clients) (answer_request-store env sid a c to_org _ _)
    ∙ create-clients c.id c.org_id to_org a.admin_id env.now w.store

answer_instant-store :
    (env : Env) (sid : String) (a : AdminRow) (c : ClientRow) (to_org : ℤ)
    (r : CreateTransferResult)
    → (w : World) → (answer_instant env sid a c to_org r w).store ≡ w.store
unfolding answer_instant broadcast_transfer_event
answer_instant-store env sid a c to_org (created id d) w = refl
answer_instant-store env sid a c to_org (refused code m) w = refl
answer_instant-store env sid a c to_org failed w = refl

approved-clients :
    (c from_org to_org by by' : ℤ) (now : ℕ) (s : Store)
    → (create_transfer_request_approved c from_org to_org by by' now s).1.clients ≡ s.clients
unfolding create_transfer_request_approved insert_transfer
approved-clients c from_org to_org by by' now s = ground arith

instant_transfer-clients :
    (env : Env) (sid : String) (a : AdminRow) (c : ClientRow) (to_org : ℤ) (w : World)
    → (instant_transfer env sid a c to_org w).store.clients
      ≡ (elim (move_client c.id to_org a.admin_id env.now w.store) [
        | none ↦ w.store.clients
        | some s ↦ s.clients
      ])
unfolding instant_transfer store_of
instant_transfer-clients env sid a c to_org w =
    rw⁻¹ (apply-store env c.id c.org_id to_org a.admin_id w)
      (elim (Option-cases (apply_client_org_transfer env c.id c.org_id to_org a.admin_id w)) [
        | inl e ↦ rw (e, instant_transfer) refl
        | inr (moved, e) ↦
            rw (e, instant_transfer)
              (ap (λ s. s.clients) (answer_instant-store env sid a c to_org _ _)
                ∙ approved-clients c.id c.org_id to_org a.admin_id a.admin_id env.now moved.store)
      ])

-- A super admin is no team lead.
super_admin_role : (role : String) → (role == "super_admin") ≡ true → (role == "org_admin") ≡ false
unfolding string_beq
super_admin_role role h = rw ((string_beq_iff role "super_admin").0 h) refl

-- Whether a request for a transfer, of a client that was found, moves it at once.
unfoldable pub moves_at_once : AdminRow → ClientRow → ℤ → Bool
moves_at_once a c to_org =
    not (is_disabled c) && not (c.org_id == to_org) && (a.role == "super_admin")

-- The rows of the clients after a request for a transfer of a client that was found: they are
-- those of `move_client` where a super admin asks for an enabled client that is not in that team
-- already, and otherwise no client's row changes.
pub transfer_client-clients :
    (env : Env) (sid : String) (a : AdminRow) (c : ClientRow) (to_org : ℤ) (w : World)
    → (transfer_client env sid a c to_org w).store.clients ≡ (
        if moves_at_once a c to_org
        then (elim (move_client c.id to_org a.admin_id env.now w.store) [
          | none ↦ w.store.clients
          | some s ↦ s.clients
        ])
        else w.store.clients)
unfolding transfer_client moves_at_once
transfer_client-clients env sid a c to_org w = elim (Bool-cases (a.role == "super_admin")) [
  | inl h ↦
      ground (arith, h, instant_transfer-clients env sid a c to_org w, super_admin_role a.role h)
  | inr h ↦ ground (arith, h, request_transfer-clients env sid a c to_org w)
]
