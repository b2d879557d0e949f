-- ===== src/Db/Grants/Latest.antt =====
-- The active grant that is found expires last (internal/db/relay.go).
use go_signing_server_anywhe.Prelude.{
  ℕ, ◌≡◌, refl, inl, inr, Bool, true, false, ◌&&◌, Option, none, some, List, [], ◌∷◌, arith,
  Option-cases, ℤ, nat_eq, int_eq, string_eq, count,
}
use go_signing_server_anywhe.Db.Tables.{GrantRow}
use go_signing_server_anywhe.Db.Grants.{is_active, get_active, ends_before, expires_after}

-- An active row that expires after `g`.
unfoldable pub outlasts : ℤ → ℕ → GrantRow → GrantRow → Bool
outlasts admin_id now g r = is_active admin_id now r && ends_before g r

ends_before-asym : (a b : GrantRow) → ends_before a b ≡ true → ends_before b a ≡ false
unfolding ends_before
ends_before-asym a b h = ground arith

ends_before_self : (a : GrantRow) → ends_before a a ≡ false
unfolding ends_before
ends_before_self a = ground arith

-- What outlasts the later of two rows outlasts the other.
outlasts_trans :
    (admin_id : ℤ) (now : ℕ) (g r x : GrantRow)
    → is_active admin_id now r ≡ true
    → ends_before g r ≡ false
    → outlasts admin_id now r x ≡ false
    → outlasts admin_id now g x ≡ false
unfolding outlasts ends_before is_active expires_after
outlasts_trans admin_id now g r x live h k = ground arith

get_active-none :
    (admin_id : ℤ) (now : ℕ) (rows : List GrantRow) (g : GrantRow)
    → get_active admin_id now rows ≡ none
    → count (outlasts admin_id now g) rows ≡ 0
unfolding get_active count outlasts
get_active-none admin_id now [] g h = refl
get_active-none admin_id now (x ∷ rows) g h = ground (arith, get_active-none admin_id now rows g)

get_active-is_active :
    (admin_id : ℤ) (now : ℕ) (rows : List GrantRow) (g : GrantRow)
    → get_active admin_id now rows ≡ some g
    → is_active admin_id now g ≡ true
unfolding get_active
get_active-is_active admin_id now [] g h = absurd (ground arith)
get_active-is_active admin_id now (x ∷ rows) g h =
    elim (Option-cases (get_active admin_id now rows)) [
      | inl e ↦ ground (arith, e)
      | inr (r, e) ↦ ground (arith, e, get_active-is_active admin_id now rows r e)
    ]

count-outlasts :
    (admin_id : ℤ) (now : ℕ) (g r : GrantRow) (rows : List GrantRow)
    → is_active admin_id now r ≡ true
    → ends_before g r ≡ false
    → count (outlasts admin_id now r) rows ≡ 0
    → count (outlasts admin_id now g) rows ≡ 0
unfolding count
count-outlasts admin_id now g r [] live h k = refl
count-outlasts admin_id now g r (x ∷ rows) live h k =
    ground
      (arith, outlasts_trans admin_id now g r x live h, count-outlasts admin_id now g r rows live h)

outlasts-not :
    (admin_id : ℤ) (now : ℕ) (g r : GrantRow)
    → ends_before g r ≡ false
    → outlasts admin_id now g r ≡ false
unfolding outlasts
outlasts-not admin_id now g r h = ground arith

inactive_not :
    (admin_id : ℤ) (now : ℕ) (g r : GrantRow)
    → is_active admin_id now r ≡ false
    → outlasts admin_id now g r ≡ false
unfolding outlasts
inactive_not admin_id now g r h = ground arith

-- No active row outlasts the one that is found.
get_active-latest :
    (admin_id : ℤ) (now : ℕ) (rows : List GrantRow) (g : GrantRow)
    → get_active admin_id now rows ≡ some g
    → count (outlasts admin_id now g) rows ≡ 0
unfolding get_active count
get_active-latest admin_id now [] g h = refl
get_active-latest admin_id now (x ∷ rows) g h = elim (Option-cases (get_active admin_id now rows)) [
  | inl e ↦ ground (
    arith,
    e,
    get_active-none admin_id now rows g e,
    outlasts-not admin_id now x x (ends_before_self x),
  )
  | inr (r, e) ↦ ground (
    arith,
    e,
    get_active-latest admin_id now rows r e,
    get_active-is_active admin_id now rows r e,
    count-outlasts admin_id now x r rows,
    outlasts-not admin_id now x x (ends_before_self x),
    outlasts-not admin_id now r x,
    ends_before-asym x r,
    inactive_not admin_id now r x,
  )
]

get_active-no_active :
    (admin_id : ℤ) (now : ℕ) (rows : List GrantRow)
    → get_active admin_id now rows ≡ none
    → count (is_active admin_id now) rows ≡ 0
unfolding get_active count
get_active-no_active admin_id now [] h = refl
get_active-no_active admin_id now (x ∷ rows) h =
    ground (arith, get_active-no_active admin_id now rows)

-- The active row that expires last, or none where no row is active.
unfoldable pub IsLatest : ℤ → ℕ → List GrantRow → Option GrantRow → Type 0
IsLatest admin_id now rows none = count (is_active admin_id now) rows ≡ 0
IsLatest admin_id now rows (some g) =
    (is_active admin_id now g ≡ true) × (count (outlasts admin_id now g) rows ≡ 0)

IsLatest-of :
    (admin_id : ℤ) (now : ℕ) (rows : List GrantRow) (o : Option GrantRow)
    → get_active admin_id now rows ≡ o
    → IsLatest admin_id now rows o
unfolding IsLatest
IsLatest-of admin_id now rows none h = get_active-no_active admin_id now rows h
IsLatest-of admin_id now rows (some g) h =
    (get_active-is_active admin_id now rows g h, get_active-latest admin_id now rows g h)

pub get_active-IsLatest :
    (admin_id : ℤ) (now : ℕ) (rows : List GrantRow)
    → IsLatest admin_id now rows (get_active admin_id now rows)
get_active-IsLatest admin_id now rows = IsLatest-of admin_id now rows _ refl
