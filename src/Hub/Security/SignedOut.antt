-- ===== src/Hub/Security/SignedOut.antt =====
-- A reset password signs its account out everywhere (internal/hub/admin_security.go).
use go_signing_server_anywhe.Prelude.{
  ℕ, String, ◌≡◌, ◌≢◌, inl, inr, true, false, some, List, [], ◌∷◌, arith, ltb, Bool-cases,
  Option-cases, ℤ, int_beq_iff, ◌==◌, ◌!=◌, nat_eq, int_eq, string_eq, keep,
}
use go_signing_server_anywhe.Db.Tables.{AdminRow, AdminSession, find_where}
use go_signing_server_anywhe.Db.Admins.{get_admin_by_session_token, revoke_all_admin_sessions}
use go_signing_server_anywhe.Hub.World.{World}
use go_signing_server_anywhe.Hub.Security.{revoke_admin_sessions_and_disconnect}

-- No session that is left is the revoked administrator's.
session_left :
    (token : String) (id : ℤ) (xs : List AdminSession) (x : AdminSession)
    → find_where (λ y. y.token == token) (keep (λ y. y.admin_id != id) xs) ≡ some x
    → (x.admin_id == id) ≡ false
unfolding find_where keep
session_left token id [] x e = absurd (ground arith)
session_left token id (y ∷ xs) x e = elim (Bool-cases (y.admin_id == id)) [
  | inl h ↦ session_left token id xs x (ground (arith, h))
  | inr h ↦ elim (Bool-cases (y.token == token)) [
    | inl t ↦ ground (arith, h, t)
    | inr t ↦ session_left token id xs x (ground (arith, h, t))
  ]
]

found_admin :
    (id : ℤ) (as' : List AdminRow) (a : AdminRow)
    → find_where (λ b. b.admin_id == id) as' ≡ some a
    → (a.admin_id == id) ≡ true
unfolding find_where
found_admin id [] a e = absurd (ground arith)
found_admin id (b ∷ as') a e = elim (Bool-cases (b.admin_id == id)) [
  | inl h ↦ ground (arith, h)
  | inr h ↦ found_admin id as' a (ground (arith, h))
]

-- After the sessions of an administrator were revoked, no token signs anybody in as that
-- administrator, at any time.
pub signed_out :
    (id : ℤ) (token : String) (now : ℕ) (w : World) (a : AdminRow)
    → get_admin_by_session_token token now (revoke_admin_sessions_and_disconnect id w).store
      ≡ some a
    → a.admin_id ≢ id
unfolding get_admin_by_session_token revoke_all_admin_sessions revoke_admin_sessions_and_disconnect
signed_out id token now w a e same = elim (Bool-cases w.store.up) [
  | inr u ↦ absurd (ground (arith, u))
  | inl u ↦
      elim (Option-cases (
        find_where (λ y. y.token == token) (keep (λ y. y.admin_id != id) w.store.admin_sessions))) [
          | inl n ↦ absurd (ground (arith, u, n))
          | inr (x, n) ↦
              let left = session_left token id w.store.admin_sessions x n in
              elim (Bool-cases (ltb x.expires_at now)) [
                | inl l ↦ absurd (ground (arith, u, n, l))
                | inr l ↦
                    let there = found_admin x.admin_id w.store.admins a (ground (arith, u, n, l)) in
                    absurd (
                      ground (
                        arith,
                        left,
                        there,
                        same,
                        int_beq_iff a.admin_id x.admin_id,
                        int_beq_iff x.admin_id id,
                      ))
              ]
        ]
]
