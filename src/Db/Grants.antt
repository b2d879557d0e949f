-- ===== src/Db/Grants.antt =====
-- The requests for remote access and for a stream relay (internal/db/relay.go). The statements on
-- the two tables are the same, so a function here takes the rows of one of them.
pub mod Latest
pub mod Life
use go_signing_server_anywhe.Prelude.{
  ℕ, zero, suc, ◌+◌, ◌-◌, ◌*◌, ◌/◌, ◌%◌, ◌^◌, ◌≤◌, ◌<◌, String, ◌≡◌, refl, sym, ap, ◌∙◌, ◌≢◌, ◌↔◌,
  ◌⊎◌, inl, inr, Bool, true, false, not, ◌&&◌, ◌||◌, Option, none, some, List, [], ◌∷◌, ◌++◌, map,
  arith, eq_iff, ltb, leb, nat_beq, if◌then◌else◌, ltb→lt, lt→ltb, leb→le, le→leb, nat_beq_iff,
  tests, Bool-cases, Option-cases, ℤ, pos, negsuc, pos_part, neg_part, sub_ℕ, ◌+ℤ◌, ◌-ℤ◌, ◌≤ℤ◌,
  ◌<ℤ◌, ltb_ℤ, leb_ℤ, int_beq, int_beq_iff, Eq, ◌==◌, ◌!=◌, nat_eq, int_eq, string_eq, string_beq,
  string_beq_iff, beq_refl, length, take, keep, count, length-append, length-keep-le,
  length-keep-count, keep-append, has, add, remove, IsSetList, has-add, has-remove, add-IsSetList,
  remove-IsSetList, remove_absent, length-remove, length-remove-le,
}
use go_signing_server_anywhe.Db.Tables.{GrantRow, update_where, find_where}

-- An hour in milliseconds.
abbrev pub hour : ℕ
hour = 3600000

unfoldable pub new_request : ℕ → ℤ → ℤ → String → String → ℤ → GrantRow
new_request id admin_id org_id requester_ip reason duration_hours = record {
  id = pos id;
  admin_id = admin_id;
  org_id = org_id;
  requester_ip = requester_ip;
  reason = reason;
  duration_hours = duration_hours;
  status = "pending";
  approved_by = none;
  expires_at = none;
}

-- A duration of so many hours from now.
unfoldable pub after_hours : ℤ → ℕ → ℤ
after_hours (pos n) now = pos (now + n * hour)
after_hours (negsuc n) now = pos now -ℤ pos (suc n * hour)

unfoldable pub is_open : ℤ → GrantRow → Bool
is_open id g = (g.id == id) && (g.status == "pending")

unfoldable pub grant : ℤ → ℕ → GrantRow → GrantRow
unfolding after_hours
grant by now g = record g {
  status = "approved";
  approved_by = some by;
  expires_at = some (after_hours g.duration_hours now);
}

unfoldable pub refuse : ℤ → GrantRow → GrantRow
refuse by g = record g { status = "denied"; approved_by = some by }

-- The update with `RETURNING *`: the rows after it, and whether one row came back. The query
-- collects one row, and finds an error where there is none.
unfoldable pub approve : ℤ → ℤ → ℕ → List GrantRow → List GrantRow × Bool
unfolding is_open grant
approve id by now rows = (
  update_where (is_open id) (grant by now) rows,
  (elim (find_where (is_open id) rows) [ none ↦ false | some _ ↦ true ]),
)

unfoldable pub deny : ℤ → ℤ → List GrantRow → List GrantRow
unfolding is_open refuse
deny id by rows = update_where (is_open id) (refuse by) rows

unfoldable pub expires_after : ℕ → GrantRow → Bool
expires_after now g = elim g.expires_at [ none ↦ false | some t ↦ ltb_ℤ (pos now) t ]

-- `expires_at <= NOW()`, which no NULL satisfies
unfoldable pub has_expired : ℕ → GrantRow → Bool
has_expired now g = elim g.expires_at [ none ↦ false | some t ↦ leb_ℤ t (pos now) ]

unfoldable pub is_active : ℤ → ℕ → GrantRow → Bool
unfolding expires_after
is_active admin_id now g =
    (g.admin_id == admin_id) && (g.status == "approved") && expires_after now g

-- `expires_at` of one row before that of another; NULL is not compared.
unfoldable pub ends_before : GrantRow → GrantRow → Bool
ends_before a b = elim a.expires_at [
  | none ↦ false
  | some t ↦ elim b.expires_at [ none ↦ false | some u ↦ ltb_ℤ t u ]
]

-- The active row that expires last (`ORDER BY expires_at DESC LIMIT 1`). Of several that expire
-- at once, between which the query does not choose, it is the one made last.
unfoldable pub get_active : ℤ → ℕ → List GrantRow → Option GrantRow
unfolding is_active ends_before
get_active admin_id now [] = none
get_active admin_id now (g ∷ rows) =
    let rest = get_active admin_id now rows in
    if is_active admin_id now g
    then (elim rest [ none ↦ some g | some r ↦ some (if ends_before g r then r else g) ])
    else rest

unfoldable pub expire : ℕ → List GrantRow → List GrantRow
unfolding has_expired
expire now rows =
    update_where (λ g. (g.status == "approved") && has_expired now g)
      (λ g. record g { status = "expired" }) rows

unfoldable pub get_my_requests : ℤ → List GrantRow → List GrantRow
get_my_requests admin_id rows = take 50 (keep (λ g. g.admin_id == admin_id) rows)

unfoldable pub get_all_pending : List GrantRow → List GrantRow
get_all_pending rows = keep (λ g. g.status == "pending") rows
