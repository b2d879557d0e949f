-- ===== src/StreamWindow/Window.antt =====
-- When viewing may start (internal/streamwindow/window.go, AllowedNow).
use go_signing_server_anywhe.Prelude.{
  ℕ, ◌<◌, String, ◌≡◌, ◌↔◌, true, Option, some, arith, pos, ◌≤ℤ◌, ◌<ℤ◌, nat_eq, int_eq, string_eq,
}
use go_signing_server_anywhe.StreamWindow.Normal.{normalize-IsValid, normalize_valid}
use go_signing_server_anywhe.StreamWindow.{Policy, verdict, normalize, times_60, allowed_now}

module _ {Time Location : Type 0} (load_location : String → Option Location)
    (civil : Time → Location → ℕ × ℕ) where
  -- In an enabled window whose zone is known, viewing may start exactly while the clock's hour in
  -- that zone is at least the start hour and below the end hour, whatever the minute of that
  -- hour.
  pub allowed_now-hours :
      (p : Policy) (now : Time) (loc : Location)
      → (normalize p).enabled ≡ true
      → load_location (normalize p).timezone ≡ some loc
      → (civil now loc).1 < 60
      → (allowed_now load_location civil p now ≡ verdict true)
        ↔ ((normalize p).start_hour ≤ℤ pos (civil now loc).0)
          × (pos (civil now loc).0 <ℤ (normalize p).end_hour)
  unfolding allowed_now times_60
  allowed_now-hours p now loc on found minute =
      ground (arith, normalize_valid (normalize p) (normalize-IsValid p), normalize-IsValid p)
