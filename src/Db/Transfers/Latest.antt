-- ===== src/Db/Transfers/Latest.antt =====
-- What the statements of internal/db/transfer.go do to the organization of one client.
use go_signing_server_anywhe.Prelude.{
  ℕ, ◌≡◌, refl, ap, inl, inr, true, Option, none, some, List, [], ◌∷◌, map, arith, if◌then◌else◌,
  Bool-cases, Option-cases, ℤ, pos, int_beq_iff, ◌==◌, nat_eq, int_eq, string_eq,
}
use mathlib.Core.Option
use go_signing_server_anywhe.Db.Tables.{ClientRow, TransferRow, Store, update_where, find_where}
use go_signing_server_anywhe.Db.Transfers.{
  has_id, move_to, move_client, set_client_org_now, latest_approved, reconcile_row,
  reconcile_client_orgs, resolve_pending_transfers,
}

-- SELECT … FROM clients WHERE id = $1
unfoldable pub client_by_id : ℤ → Store → Option ClientRow
client_by_id id s = find_where (has_id id) s.clients

-- An update of the rows with one id is seen in the row that is read by it.
find_where-update :
    (id : ℤ) (f : ClientRow → ClientRow)
    → ((c : ClientRow) → has_id id (f c) ≡ has_id id c)
    → (cs : List ClientRow)
    → find_where (has_id id) (update_where (has_id id) f cs)
      ≡ Option.map f (find_where (has_id id) cs)
unfolding find_where update_where
find_where-update id f keeps [] = refl
find_where-update id f keeps (c ∷ cs) = elim (Bool-cases (has_id id c)) [
  | inl e ↦ rw e (rw (keeps c, e) refl)
  | inr e ↦ rw e (rw e (find_where-update id f keeps cs))
]

find_where-map :
    (id : ℤ) (f : ClientRow → ClientRow)
    → ((c : ClientRow) → has_id id (f c) ≡ has_id id c)
    → (cs : List ClientRow)
    → find_where (has_id id) (map f cs) ≡ Option.map f (find_where (has_id id) cs)
unfolding find_where
find_where-map id f keeps [] = refl
find_where-map id f keeps (c ∷ cs) = elim (Bool-cases (has_id id c)) [
  | inl e ↦ rw (keeps c, e) refl
  | inr e ↦ rw (keeps c, e) (find_where-map id f keeps cs)
]

reconcile_row-has_id :
    (ts : List TransferRow) (id : ℤ) (c : ClientRow) → has_id id (reconcile_row ts c) ≡ has_id id c
unfolding reconcile_row has_id move_to
reconcile_row-has_id ts id c = ground arith

move_to-has_id : (org id : ℤ) (c : ClientRow) → has_id id (move_to org c) ≡ has_id id c
unfolding move_to has_id
move_to-has_id org id c = refl

pub client-set_org :
    (id org : ℤ) (s s' : Store) (c : ClientRow)
    → set_client_org_now id org s ≡ some s'
    → client_by_id id s ≡ some c
    → (client_by_id id s' ≡ some (move_to org c)) × (s'.transfers ≡ s.transfers) × (s'.up ≡ true)
unfolding set_client_org_now client_by_id
client-set_org id org s s' c done found =
    let l = find_where-update id (move_to org) (move_to-has_id org id) s.clients in
    (ground (arith, l), ground arith, ground arith)

pub client-reconcile :
    (id : ℤ) (s : Store) (c : ClientRow)
    → s.up ≡ true
    → client_by_id id s ≡ some c
    → client_by_id id (reconcile_client_orgs s) ≡ some (reconcile_row s.transfers c)
unfolding reconcile_client_orgs client_by_id
client-reconcile id s c up found = ground (
  arith,
  find_where-map id (reconcile_row s.transfers) (reconcile_row-has_id s.transfers id) s.clients,
)

client-resolve :
    (id by : ℤ) (now : ℕ) (s : Store)
    → client_by_id id (resolve_pending_transfers id by now s) ≡ client_by_id id s
unfolding resolve_pending_transfers client_by_id
client-resolve id by now s = ground arith

-- The organization in which the statements of a transfer leave a client.
unfoldable pub final_org : List TransferRow → ℤ → ClientRow → ℤ
final_org ts to_org c = elim (latest_approved c.id ts) [
  | none ↦ to_org
  | some t ↦ if c.disabled == pos 0 then t.to_org_id else to_org
]

reconcile-moved :
    (ts : List TransferRow) (to_org : ℤ) (c : ClientRow)
    → (reconcile_row ts (move_to to_org c)).org_id ≡ final_org ts to_org c
unfolding reconcile_row move_to final_org
reconcile-moved ts to_org c = elim (Option-cases (latest_approved c.id ts)) [
  | inl e ↦ ground arith
  | inr (t, e) ↦ ground (arith, int_beq_iff to_org t.to_org_id)
]

pub move_client-client :
    (id to_org by : ℤ) (now : ℕ) (s s' : Store) (c : ClientRow)
    → move_client id to_org by now s ≡ some s'
    → client_by_id id s ≡ some c
    → client_by_id id s' ≡ some (reconcile_row s.transfers (move_to to_org c))
unfolding move_client
move_client-client id to_org by now s s' c done found =
    elim (Option-cases (set_client_org_now id to_org s)) [
      | inl e ↦ absurd (ground (arith, e))
      | inr (moved, e) ↦
          let (client, same, up) = client-set_org id to_org s moved c e found in
          ground (
            arith,
            e,
            client-resolve id by now (reconcile_client_orgs moved),
            client-reconcile id moved (move_to to_org c) up client,
            same,
          )
    ]

-- After the statements of a transfer have run without an error, a client that they name and that
-- is there is in `final_org`: in the organization of its latest approved request, if it has one
-- and is enabled, and only otherwise in the one that the transfer names.
pub move_client-org :
    (id to_org by : ℤ) (now : ℕ) (s s' : Store) (c : ClientRow)
    → move_client id to_org by now s ≡ some s'
    → client_by_id id s ≡ some c
    → Option.map (λ r. r.org_id) (client_by_id id s') ≡ some (final_org s.transfers to_org c)
move_client-org id to_org by now s s' c done found =
    rw (move_client-client id to_org by now s s' c done found)
      (ap some (reconcile-moved s.transfers to_org c))
