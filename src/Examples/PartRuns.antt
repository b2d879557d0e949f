-- ===== src/Examples/PartRuns.antt =====
-- Runs of the window of the team leads and of the rate limit.
use go_signing_server_anywhe.Prelude.{
  ℕ, ◌+◌, ◌-◌, ◌*◌, ◌≤◌, String, ◌≡◌, refl, ◌↔◌, true, Option, some, [], ◌∷◌, arith, pos, ◌≤ℤ◌,
  ◌<ℤ◌, nat_eq, int_eq, string_eq, string_beq,
}
use go_signing_server_anywhe.RateLimit.{new, serve, second}
use go_signing_server_anywhe.RateLimit.Bounds.{serve-new}
use go_signing_server_anywhe.StreamWindow.{
  Policy, default_policy, normalize, fix_timezone, fix_start, fix_end, fix_order, allowed_now,
  verdict,
}
use go_signing_server_anywhe.StreamWindow.Normal.{IsValid, normalize_canonical}
use go_signing_server_anywhe.StreamWindow.Window.{allowed_now-hours}

abbrev overnight : Policy
overnight = record { enabled = true; timezone = "UTC"; start_hour = pos 22; end_hour = pos 6 }

normalize_canonical_example :
    IsValid (normalize overnight) × ((normalize overnight ≡ overnight) ↔ IsValid overnight)
normalize_canonical_example = normalize_canonical overnight

-- A clock that knows every zone and reads the time as an hour and a minute.
abbrev any_zone : String → Option String
any_zone name = some name

abbrev clock : ℕ × ℕ → String → ℕ × ℕ
clock t loc = t

zone_found : any_zone (normalize default_policy).timezone ≡ some "Asia/Kathmandu"
unfolding normalize fix_timezone fix_start fix_end fix_order default_policy string_beq
zone_found = refl

enabled : (normalize default_policy).enabled ≡ true
unfolding normalize fix_timezone fix_start fix_end fix_order default_policy string_beq
enabled = refl

allowed_now-hours_example :
    (allowed_now any_zone clock default_policy (8, 30) ≡ verdict true)
    ↔ ((normalize default_policy).start_hour ≤ℤ pos 8)
      × (pos 8 <ℤ (normalize default_policy).end_hour)
allowed_now-hours_example =
    allowed_now-hours any_zone clock default_policy (8, 30) "Asia/Kathmandu" enabled zone_found
      (omega arith)

serve-new_example : (serve (new 2 1 0) (0 ∷ 0 ∷ 0 ∷ [])).1 * second ≤ 2 * second + (10 - 0) * 1
serve-new_example =
    serve-new 2 1 0 (0 ∷ 0 ∷ 0 ∷ []) 10 (omega arith, (omega arith, (omega arith, omega arith)))
