-- ===== src/Db/Grants/Life.antt =====
-- The life of a grant (internal/db/relay.go).
use go_signing_server_anywhe.Prelude.{
  ℕ, suc, ◌≤◌, length, String, ◌≡◌, refl, ap, ◌∙◌, Bool, true, false, not, ◌&&◌, List, [], ◌∷◌,
  ◌++◌, arith, if◌then◌else◌, ℤ, ◌==◌, nat_eq, int_eq, string_eq, string_beq,
}
use go_signing_server_anywhe.Db.Tables.{GrantRow, update_where}
use go_signing_server_anywhe.Db.Grants.Latest.{IsLatest, get_active-IsLatest}
use go_signing_server_anywhe.Db.Grants.{
  is_open, grant, refuse, approve, deny, expire, is_active, get_active, has_expired, expires_after,
  new_request,
}

-- The statements that change a table of grants, `add` being an insert of an open request.
pub data Statement : Type 0 where
  ask : (id : ℕ) (admin_id org_id : ℤ) (ip reason : String) (hours : ℤ) → Statement
  approve_it : (id by : ℤ) (now : ℕ) → Statement
  deny_it : (id by : ℤ) → Statement
  expire_all : (now : ℕ) → Statement

unfoldable pub run : Statement → List GrantRow → List GrantRow
run (ask id a o ip reason hours) rows = new_request id a o ip reason hours ∷ rows
run (approve_it id by now) rows = (approve id by now rows).0
run (deny_it id by) rows = deny id by rows
run (expire_all now) rows = expire now rows

-- One row through one statement that does not add it.
unfoldable pub pass : Statement → GrantRow → GrantRow
pass (ask id a o ip reason hours) g = g
pass (approve_it id by now) g = if is_open id g then grant by now g else g
pass (deny_it id by) g = if is_open id g then refuse by g else g
pass (expire_all now) g =
    if (g.status == "approved") && has_expired now g then record g { status = "expired" } else g

unfoldable pub run_all : List Statement → List GrantRow → List GrantRow
run_all [] rows = rows
run_all (st ∷ sts) rows = run_all sts (run st rows)

update_where-append :
    (p : GrantRow → Bool) (f : GrantRow → GrantRow) (xs ys : List GrantRow)
    → update_where p f (xs ++ ys) ≡ update_where p f xs ++ update_where p f ys
unfolding update_where
update_where-append p f [] ys = refl
update_where-append p f (x ∷ xs) ys =
    ap (λ r. (if p x then f x else x) ∷ r) (update_where-append p f xs ys)

length-update_where :
    (p : GrantRow → Bool) (f : GrantRow → GrantRow) (xs : List GrantRow)
    → length (update_where p f xs) ≡ length xs
unfolding update_where
length-update_where p f [] = refl
length-update_where p f (x ∷ xs) = ap suc (length-update_where p f xs)

-- The rows below some row after a statement; new rows come on top.
unfoldable pub pass_below : Statement → List GrantRow → List GrantRow
pass_below (ask id a o ip reason hours) ys = ys
pass_below (approve_it id by now) ys = update_where (is_open id) (grant by now) ys
pass_below (deny_it id by) ys = update_where (is_open id) (refuse by) ys
pass_below (expire_all now) ys = expire now ys

length-pass_below : (st : Statement) (ys : List GrantRow) → length (pass_below st ys) ≡ length ys
unfolding pass_below expire
length-pass_below (ask id a o ip reason hours) ys = refl
length-pass_below (approve_it id by now) ys = length-update_where (is_open id) (grant by now) ys
length-pass_below (deny_it id by) ys = length-update_where (is_open id) (refuse by) ys
length-pass_below (expire_all now) ys =
    length-update_where (λ x. (x.status == "approved") && has_expired now x)
      (λ x. record x { status = "expired" }) ys

-- A statement changes a row as it changes any row, and leaves it in its place.
run-append :
    (st : Statement) (xs : List GrantRow) (g : GrantRow) (ys : List GrantRow)
    → run st (xs ++ g ∷ ys) ≡ run st xs ++ pass st g ∷ pass_below st ys
unfolding run pass pass_below approve deny expire update_where
run-append (ask id a o ip reason hours) xs g ys = refl
run-append (approve_it id by now) xs g ys =
    update_where-append (is_open id) (grant by now) xs (g ∷ ys)
run-append (deny_it id by) xs g ys = update_where-append (is_open id) (refuse by) xs (g ∷ ys)
run-append (expire_all now) xs g ys =
    update_where-append (λ x. (x.status == "approved") && has_expired now x)
      (λ x. record x { status = "expired" }) xs (g ∷ ys)

-- Neither open nor approved.
unfoldable pub is_closed : GrantRow → Bool
is_closed g = not (g.status == "pending") && not (g.status == "approved")

pass-closed : (st : Statement) (g : GrantRow) → is_closed g ≡ true → pass st g ≡ g
unfolding pass is_closed is_open
pass-closed (ask id a o ip reason hours) g h = refl
pass-closed (approve_it id by now) g h = ground arith
pass-closed (deny_it id by) g h = ground arith
pass-closed (expire_all now) g h = ground arith

-- A request that was denied, or a grant that was marked as expired, stays as it is and in its
-- place, wherever it stands in its table and whatever statements follow: above it is what comes of
-- the rows above it with the new ones, and below it as many rows as before. No later approval
-- brings it back.
pub run_all-closed :
    (sts : List Statement) (xs : List GrantRow) (g : GrantRow) (ys : List GrantRow)
    → is_closed g ≡ true
    → (zs : List GrantRow) × (run_all sts (xs ++ g ∷ ys) ≡ run_all sts xs ++ g ∷ zs)
      × (length zs ≡ length ys)
unfolding run_all
run_all-closed [] xs g ys h = (ys, refl, refl)
run_all-closed (st ∷ sts) xs g ys h =
    let (zs, e, n) = run_all-closed sts (run st xs) g (pass_below st ys) h in
    (
      zs,
      ap (run_all sts) (
            run-append st xs g ys
            ∙ ap (λ x. run st xs ++ x ∷ pass_below st ys) (pass-closed st g h))
          ∙ e,
      n ∙ length-pass_below st ys,
    )

expired-inactive :
    (admin_id : ℤ) (t now : ℕ) (g : GrantRow)
    → t ≤ now
    → has_expired t g ≡ true
    → is_active admin_id now g ≡ false
unfolding has_expired is_active expires_after
expired-inactive admin_id t now g l h = ground arith

string_expired : string_beq "expired" "approved" ≡ false
unfolding string_beq
string_expired = refl

-- The sweep leaves every administrator's answer alone.
expire-found :
    (admin_id : ℤ) (t now : ℕ) (rows : List GrantRow)
    → t ≤ now
    → get_active admin_id now (expire t rows) ≡ get_active admin_id now rows
unfolding get_active expire update_where is_active
expire-found admin_id t now [] l = refl
expire-found admin_id t now (g ∷ rows) l =
    ground (
      arith,
      expire-found admin_id t now rows l,
      expired-inactive admin_id t now g l,
      string_expired,
    )

-- The sweep that marks expired grants does not change which grant an administrator has at its time
-- or later. Before and after it that is an approved one of theirs that has not expired, and none of
-- these expires later; they have none only where there is no such grant.
pub expire-get_active :
    (admin_id : ℤ) (t now : ℕ) (rows : List GrantRow)
    → t ≤ now
    → (get_active admin_id now (expire t rows) ≡ get_active admin_id now rows)
      × IsLatest admin_id now rows (get_active admin_id now rows)
expire-get_active admin_id t now rows l =
    (expire-found admin_id t now rows l, get_active-IsLatest admin_id now rows)
