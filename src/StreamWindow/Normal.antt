-- ===== src/StreamWindow/Normal.antt =====
-- What `Normalize` makes of a stored policy (internal/streamwindow/window.go).
use go_signing_server_anywhe.Prelude.{
  ◌≡◌, refl, ◌↔◌, inl, inr, false, arith, Bool-cases, pos, ◌≤ℤ◌, ◌<ℤ◌, ◌==◌, nat_eq, int_eq,
  string_eq, string_beq,
}
use go_signing_server_anywhe.StreamWindow.{
  Policy, default_policy, fix_timezone, fix_start, fix_end, fix_order, normalize,
}
use mathlib.Core.Path.{subst}

-- A window inside one day, in a named zone.
pub record IsValid (p : Policy) : Type 0 where
  pub zone : (p.timezone == "") ≡ false
  pub start_low : pos 0 ≤ℤ p.start_hour
  pub start_high : p.start_hour ≤ℤ pos 23
  pub end_low : pos 1 ≤ℤ p.end_hour
  pub end_high : p.end_hour ≤ℤ pos 24
  pub ordered : p.start_hour <ℤ p.end_hour

fix_timezone-zone : (p : Policy) → (((fix_timezone p).timezone == "") ≡ false)
unfolding fix_timezone default_policy string_beq
fix_timezone-zone p = elim (Bool-cases (p.timezone == "")) [
  | inl e ↦ rw (e, fix_timezone) refl
  | inr e ↦ rw (e, fix_timezone) e
]

fix_start_range :
    (p : Policy)
    → (pos 0 ≤ℤ (fix_start p).start_hour)
      × ((fix_start p).start_hour ≤ℤ pos 23)
      × ((fix_start p).timezone ≡ p.timezone)
unfolding fix_start default_policy
fix_start_range p = ground arith

fix_end_range :
    (p : Policy)
    → (pos 1 ≤ℤ (fix_end p).end_hour)
      × ((fix_end p).end_hour ≤ℤ pos 24)
      × ((fix_end p).start_hour ≡ p.start_hour)
      × ((fix_end p).timezone ≡ p.timezone)
unfolding fix_end default_policy
fix_end_range p = ground arith

fix_order-IsValid :
    (p : Policy)
    → (p.timezone == "") ≡ false
    → pos 0 ≤ℤ p.start_hour
    → p.start_hour ≤ℤ pos 23
    → pos 1 ≤ℤ p.end_hour
    → p.end_hour ≤ℤ pos 24
    → IsValid (fix_order p)
unfolding fix_order default_policy
fix_order-IsValid p z a b c d = ground arith

pub normalize-IsValid : (p : Policy) → IsValid (normalize p)
unfolding normalize
normalize-IsValid p =
    let s = fix_start (fix_timezone p) in
    let (a, b, t) = fix_start_range (fix_timezone p) in
    let (c, d, same, u) = fix_end_range s in
    fix_order-IsValid (fix_end s) (rw (u, t) (fix_timezone-zone p)) (rw same a) (rw same b) c d

fix_timezone_id : (p : Policy) → (p.timezone == "") ≡ false → fix_timezone p ≡ p
unfolding fix_timezone
fix_timezone_id p e = rw e refl

pub normalize_valid : (p : Policy) → IsValid p → normalize p ≡ p
unfolding normalize fix_start fix_end fix_order
normalize_valid p v = rw (fix_timezone_id p v.zone) (ground arith)

-- Normalising gives a valid window, and changes a policy only if it is not valid.
pub normalize_canonical : (p : Policy) → IsValid (normalize p) × ((normalize p ≡ p) ↔ IsValid p)
normalize_canonical p =
    (normalize-IsValid p, ((λ e. subst IsValid e (normalize-IsValid p)), normalize_valid p))
