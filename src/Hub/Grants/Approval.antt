-- ===== src/Hub/Grants/Approval.antt =====
-- Who approves a grant (internal/hub/handlers_audit_remote.go).
use go_signing_server_anywhe.Prelude.{
  ℕ, String, ◌≡◌, refl, inl, inr, Bool, false, List, ◌∷◌, arith, Bool-cases, Option-cases, ℤ, ◌==◌,
  ◌!=◌, nat_eq, int_eq, string_eq, string_beq, keep,
}
use go_signing_server_anywhe.Db.Tables.{AdminRow, GrantRow}
use go_signing_server_anywhe.Db.Grants.{new_request}
use go_signing_server_anywhe.Hub.Types.Json.{Msg}
use go_signing_server_anywhe.Hub.World.{World, Env}
use go_signing_server_anywhe.Hub.Grants.{
  remote_access, stream_relay, request_remote_access, request_stream_relay, active_grant,
}

unfoldable pub is_approved : GrantRow → Bool
is_approved g = g.status == "approved"

new_request-approved :
    (id : ℕ) (a o : ℤ) (ip reason : String) (hours : ℤ)
    → is_approved (new_request id a o ip reason hours) ≡ false
unfolding is_approved new_request string_beq
new_request-approved id a o ip reason hours = refl

keep-new :
    (id : ℕ) (a o : ℤ) (ip reason : String) (hours : ℤ) (rows : List GrantRow)
    → keep is_approved (new_request id a o ip reason hours ∷ rows) ≡ keep is_approved rows
unfolding keep
keep-new id a o ip reason hours rows = rw (new_request-approved id a o ip reason hours) refl

request_remote-approved :
    (env : Env) (sid : String) (a : AdminRow) (msg : Msg) (w : World)
    → keep is_approved (request_remote_access env sid a msg w).store.remote_access
      ≡ keep is_approved w.store.remote_access
unfolding request_remote_access
request_remote-approved env sid a msg w = elim (Bool-cases (a.role == "super_admin")) [
  | inl e ↦ rw e refl
  | inr e ↦ rw e (elim (Option-cases (active_grant env a w.store.remote_access w.store)) [
    | inr (g, f) ↦ rw (f, request_remote_access) refl
    | inl f ↦
        rw (f, request_remote_access)
          (elim (Bool-cases w.store.up) [ inl u ↦ rw (u, keep-new) refl | inr u ↦ rw u refl ])
  ])
]

request_relay-approved :
    (env : Env) (sid : String) (a : AdminRow) (msg : Msg) (w : World)
    → keep is_approved (request_stream_relay env sid a msg w).store.stream_relay
      ≡ keep is_approved w.store.stream_relay
unfolding request_stream_relay
request_relay-approved env sid a msg w = elim (Bool-cases (a.role != "org_admin")) [
  | inl e ↦ rw e refl
  | inr e ↦ rw e (elim (Option-cases (active_grant env a w.store.stream_relay w.store)) [
    | inr (g, f) ↦ rw (f, request_stream_relay) refl
    | inl f ↦
        rw (f, request_stream_relay)
          (elim (Bool-cases w.store.up) [ inl u ↦ rw (u, keep-new) refl | inr u ↦ rw u refl ])
  ])
]

-- No message on grants that comes from anybody but a super admin changes which grants are
-- approved, of either kind: an administrator who asks for one gets an open request at most.
pub approved_by_super_admin :
    (env : Env) (sid typ : String) (a : AdminRow) (msg : Msg) (w : World)
    → (a.role == "super_admin") ≡ false
    → (keep is_approved (remote_access env sid typ a msg w).store.remote_access
        ≡ keep is_approved w.store.remote_access)
      × (keep is_approved (stream_relay env sid typ a msg w).store.stream_relay
          ≡ keep is_approved w.store.stream_relay)
unfolding remote_access stream_relay
approved_by_super_admin env sid typ a msg w h = (
  ground (arith, h, request_remote-approved env sid a msg w),
  ground (arith, h, request_relay-approved env sid a msg w),
)
