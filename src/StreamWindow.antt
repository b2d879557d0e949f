-- ===== src/StreamWindow.antt =====
-- internal/streamwindow/window.go: when team leads may start to view screens.
-- The zone database and the civil clock of package `time` are parameters: `load_location` is
-- `time.LoadLocation`, and `civil t loc` is the hour and the minute of `t.In(loc)`.
pub mod Normal
pub mod Window
use Prim.Native.String.{◌++◌ as str_append}
use go_signing_server_anywhe.Util.{sprint_int}
use go_signing_server_anywhe.Prelude.{
  ℕ, zero, suc, ◌+◌, ◌-◌, ◌*◌, ◌/◌, ◌%◌, ◌^◌, ◌≤◌, ◌<◌, String, ◌≡◌, refl, sym, ap, ◌∙◌, ◌≢◌, ◌↔◌,
  ◌⊎◌, inl, inr, Bool, true, false, not, ◌&&◌, ◌||◌, Option, none, some, List, [], ◌∷◌, ◌++◌, map,
  arith, eq_iff, ltb, leb, nat_beq, if◌then◌else◌, ltb→lt, lt→ltb, leb→le, nat_beq_iff, tests,
  Bool-cases, Option-cases, ℤ, pos, negsuc, pos_part, neg_part, sub_ℕ, ◌+ℤ◌, ◌-ℤ◌, ◌≤ℤ◌, ◌<ℤ◌,
  ltb_ℤ, leb_ℤ, int_beq, int_beq_iff, Eq, ◌==◌, ◌!=◌, nat_eq, int_eq, string_eq, beq_refl, length,
  take, keep, count, length-append, length-keep-le, length-keep-count, keep-append, has, add,
  remove, IsSetList, has-add, has-remove, add-IsSetList, remove-IsSetList, remove_absent,
  length-remove, length-remove-le,
}

pub record Policy : Type 0 where
  pub enabled : Bool
  pub timezone : String
  pub start_hour : ℤ
  pub end_hour : ℤ

unfoldable pub default_policy : Policy
default_policy = record {
  enabled = true;
  timezone = "Asia/Kathmandu";
  start_hour = pos 7;
  end_hour = pos 15;
}

-- The four assignments of `Normalize`, in its order.
unfoldable pub fix_timezone : Policy → Policy
fix_timezone p = if p.timezone == "" then record p { timezone = default_policy.timezone } else p

unfoldable pub fix_start : Policy → Policy
fix_start p =
    if ltb_ℤ p.start_hour (pos 0) || ltb_ℤ (pos 23) p.start_hour
    then record p { start_hour = default_policy.start_hour }
    else p

unfoldable pub fix_end : Policy → Policy
fix_end p =
    if ltb_ℤ p.end_hour (pos 1) || ltb_ℤ (pos 24) p.end_hour
    then record p { end_hour = default_policy.end_hour }
    else p

unfoldable pub fix_order : Policy → Policy
fix_order p =
    if leb_ℤ p.end_hour p.start_hour
    then record p { start_hour = default_policy.start_hour; end_hour = default_policy.end_hour }
    else p

unfoldable pub normalize : Policy → Policy
normalize p = fix_order (fix_end (fix_start (fix_timezone p)))

-- `h * 60`, for an hour of either sign.
unfoldable pub times_60 : ℤ → ℤ
times_60 (pos n) = pos (n * 60)
times_60 (negsuc n) = negsuc (n * 60 + 59)

-- A result `(bool, error)`: the error carries no more than its presence.
pub data Verdict : Type 0 where
  verdict : Bool → Verdict
  no_zone : Verdict

module _ {Time Location : Type 0} (load_location : String → Option Location)
    (civil : Time → Location → ℕ × ℕ) where
  unfoldable pub location : Policy → Option Location
  location p = load_location (normalize p).timezone

  -- `mins` as an integer of Go, like the policy's hours.
  in_window : Policy → ℕ × ℕ → Bool
  in_window n (hour, minute) =
      let mins = hour * 60 + minute in
      leb_ℤ (times_60 n.start_hour) (pos mins) && ltb_ℤ (pos mins) (times_60 n.end_hour)

  unfoldable pub allowed_now : Policy → Time → Verdict
  unfolding location in_window
  allowed_now p now =
      let n = normalize p in
      if n.enabled
      then (elim (location n) [ none ↦ no_zone | some loc ↦ verdict (in_window n (civil now loc)) ])
      else verdict true

-- `%02d`
unfoldable pub two_digits : ℤ → String
two_digits n =
    if leb_ℤ (pos 0) n && ltb_ℤ n (pos 10) then str_append "0" (sprint_int n) else sprint_int n

unfoldable pub human_window : Policy → String
unfolding two_digits
human_window p =
    let n = normalize p in
    str_append (str_append (two_digits n.start_hour) ":00–")
      (str_append (two_digits n.end_hour) ":00")

unfoldable pub deny_message : Policy → String
unfolding human_window
deny_message p =
    let n = normalize p in
    str_append "Screen viewing for team leads is only available "
      (str_append (human_window n) (str_append " Nepal time (" (str_append n.timezone "), daily.")))
