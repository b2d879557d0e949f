-- ===== src/Ice/Pool.antt =====
-- The Cloudflare lanes and their health (internal/ice/cloudflare_provider.go, realtime_pool.go).
-- Times and durations are milliseconds; an operation takes the time at which it runs.
pub mod Order
pub mod Health
pub mod Failover
use go_signing_server_anywhe.Prelude.{
  ℕ, zero, suc, ◌+◌, ◌-◌, ◌*◌, ◌/◌, ◌%◌, ◌^◌, ◌≤◌, ◌<◌, String, ◌≡◌, refl, sym, ap, ◌∙◌, ◌≢◌, ◌↔◌,
  ◌⊎◌, inl, inr, Bool, true, false, not, ◌&&◌, ◌||◌, Option, none, some, List, [], ◌∷◌, ◌++◌, map,
  arith, eq_iff, ltb, leb, nat_beq, if◌then◌else◌, ltb→lt, lt→ltb, leb→le, le→leb, nat_beq_iff,
  tests, Bool-cases, Option-cases, ℤ, pos, negsuc, pos_part, neg_part, sub_ℕ, ◌+ℤ◌, ◌-ℤ◌, ◌≤ℤ◌,
  ◌<ℤ◌, ltb_ℤ, leb_ℤ, int_beq, int_beq_iff, Eq, ◌==◌, ◌!=◌, nat_eq, int_eq, string_eq, string_beq,
  string_beq_iff, beq_refl, length, take, keep, count, length-append, length-keep-le,
  length-keep-count, keep-append, has, add, remove, IsSetList, has-add, has-remove, add-IsSetList,
  remove-IsSetList, remove_absent, length-remove, length-remove-le,
}
use go_signing_server_anywhe.Prelude.Map.{
  get, put, del, get-put, get-del, holds, get-holds, holds-put, holds-del, IsMap, put-IsMap,
  del-IsMap,
}
use go_signing_server_anywhe.Text.{is_empty, trim_space}

abbrev pub lane_primary : ℕ
lane_primary = 1

abbrev pub lane_secondary : ℕ
lane_secondary = 2

pub record CloudflareLane : Type 0 where
  pub lane : ℕ
  pub turn_key_id : String
  pub turn_key_token : String
  pub realtime_app_id : String
  pub realtime_token : String

-- The settings of internal/config/config.go that this package reads, the keys of both lanes first.
pub record IceConfig : Type 0 where
  pub first : CloudflareLane
  pub second : CloudflareLane
  pub media_provider_cooldown_ms : ℕ
  pub enable_cloudflare_sfu : Bool
  pub ice_phase_one_ms : ℕ
  pub stream_sfu_viewer_threshold : ℕ
  pub stream_sfu_admin_targets_threshold : ℕ
  pub stream_turn_viewer_threshold : ℕ
  pub stream_turn_admin_targets_threshold : ℕ

unfoldable pub is_blank : String → Bool
is_blank s = is_empty (trim_space s)

unfoldable pub load_lane : ℕ → CloudflareLane → List CloudflareLane
load_lane n l =
    if not (is_blank l.turn_key_id) || not (is_blank l.realtime_app_id)
    then record l { lane = n } ∷ []
    else []

unfoldable pub load_cloudflare_lanes : IceConfig → List CloudflareLane
unfolding load_lane
load_cloudflare_lanes cfg = load_lane lane_primary cfg.first ++ load_lane lane_secondary cfg.second

pub record LaneHealth : Type 0 where
  pub healthy : Bool
  pub last_fail : ℕ
  pub last_ok : ℕ
  pub fail_streak : ℕ
  pub cooldown : ℕ

pub record ProviderPool : Type 0 where
  pub lanes : List CloudflareLane
  pub health : List (ℕ × LaneHealth)
  pub prefer : ℕ
  pub cooldown : ℕ

unfoldable pub start_health : ℕ → List CloudflareLane → List (ℕ × LaneHealth)
start_health cool [] = []
start_health cool (l ∷ ls) =
    put l.lane
      (record { healthy = true; last_fail = 0; last_ok = 0; fail_streak = 0; cooldown = cool })
      (start_health cool ls)

unfoldable pub pool_cooldown : IceConfig → ℕ
pool_cooldown cfg =
    if ltb cfg.media_provider_cooldown_ms 15000 then 45000 else cfg.media_provider_cooldown_ms

unfoldable pub new_provider_pool : IceConfig → ProviderPool
unfolding start_health pool_cooldown
new_provider_pool cfg = record {
  lanes = load_cloudflare_lanes cfg;
  health = start_health (pool_cooldown cfg) (load_cloudflare_lanes cfg);
  prefer = lane_primary;
  cooldown = pool_cooldown cfg;
}

unfoldable pub lane_by_id : ℕ → List CloudflareLane → Option CloudflareLane
lane_by_id lane [] = none
lane_by_id lane (l ∷ ls) = if l.lane == lane then some l else lane_by_id lane ls

unfoldable pub lane_configured : ℕ → List CloudflareLane → Bool
lane_configured lane [] = false
lane_configured lane (l ∷ ls) = (l.lane == lane) || lane_configured lane ls

-- The closure `add` of `LaneOrder`.
unfoldable pub add_lane : List CloudflareLane → ℕ → List ℕ → List ℕ
add_lane lanes lane out =
    if not (lane_configured lane lanes) then out else if has lane out then out else out ++ lane ∷ []

unfoldable pub add_lanes : List CloudflareLane → List CloudflareLane → List ℕ → List ℕ
add_lanes lanes [] out = out
add_lanes lanes (l ∷ ls) out = add_lanes lanes ls (add_lane lanes l.lane out)

-- A lane 0 stands for no preference.
unfoldable pub add_preferred : List CloudflareLane → ℕ → List ℕ → List ℕ
add_preferred lanes lane out = if lane != 0 then add_lane lanes lane out else out

unfoldable pub lane_order : ProviderPool → ℕ → List ℕ
unfolding add_lanes add_preferred
lane_order p preferred =
    add_lanes p.lanes p.lanes (add_preferred p.lanes p.prefer (add_preferred p.lanes preferred []))

unfoldable pub is_usable : ProviderPool → ℕ → ℕ → Bool
is_usable p now lane = elim (get lane p.health) [
  | none ↦ false
  | some h ↦ if h.healthy then true else leb h.cooldown (now - h.last_fail)
]

unfoldable pub mark_success : ℕ → ℕ → ProviderPool → ProviderPool
mark_success now lane p = elim (get lane p.health) [
  | none ↦ p
  | some h ↦ record p {
    health = put lane (record h { healthy = true; fail_streak = 0; last_ok = now }) p.health;
    prefer = lane;
  }
]

-- The first lane of the pool that is another one.
unfoldable pub other_lane : ℕ → List CloudflareLane → ℕ → ℕ
other_lane lane [] prefer = prefer
other_lane lane (l ∷ ls) prefer = if l.lane != lane then l.lane else other_lane lane ls prefer

unfoldable pub failed_once : ℕ → LaneHealth → LaneHealth
failed_once now h = record h {
  fail_streak = suc h.fail_streak;
  last_fail = now;
  healthy = h.healthy && ltb (suc h.fail_streak) 2;
}

unfoldable pub mark_failure : ℕ → ℕ → ProviderPool → ProviderPool
unfolding failed_once other_lane
mark_failure now lane p = elim (get lane p.health) [
  | none ↦ p
  | some h ↦ record p {
    health = put lane (failed_once now h) p.health;
    prefer = other_lane lane p.lanes p.prefer;
  }
]

unfoldable pub has_realtime : CloudflareLane → Bool
has_realtime l = not (is_blank l.realtime_app_id || is_blank l.realtime_token)

unfoldable pub any_realtime_healthy : ProviderPool → ℕ → List CloudflareLane → Bool
unfolding has_realtime
any_realtime_healthy p now [] = false
any_realtime_healthy p now (l ∷ ls) =
    (has_realtime l && is_usable p now l.lane) || any_realtime_healthy p now ls

unfoldable pub available_realtime_lanes : ProviderPool → ℕ → List CloudflareLane → List ℕ
unfolding has_realtime
available_realtime_lanes p now [] = []
available_realtime_lanes p now (l ∷ ls) =
    let rest = available_realtime_lanes p now ls in
    if has_realtime l && is_usable p now l.lane then l.lane ∷ rest else rest

-- An operation of the service on a lane: its answer, if it is not an error, and the time that the
-- call takes. It is a call of the Cloudflare API, which the pool only makes.
abbrev pub RealtimeOp {ℓ} : Type ℓ → Type ℓ
RealtimeOp A = CloudflareLane → Option A × ℕ

-- The loop of `RunRealtime`, begun at a time: the answer with its lane, and the pool that is left.
-- Each lane is tested at the time at which the loop reaches it, after the calls before it.
unfoldable pub run_lanes {ℓ} :
    {A : Type ℓ} → RealtimeOp A → ℕ → List ℕ → ProviderPool → Option (A × ℕ) × ProviderPool
run_lanes op now [] p = (none, p)
run_lanes op now (lane ∷ rest) p =
    if not (is_usable p now lane)
    then run_lanes op now rest p
    else (elim (lane_by_id lane p.lanes) [
      | none ↦ run_lanes op now rest p
      | some l ↦
          let over = now + (op l).1 in
          if not (has_realtime l) then run_lanes op now rest p else (elim (op l).0 [
            | none ↦ run_lanes op over rest (mark_failure over lane p)
            | some out ↦ (some (out, lane), mark_success over lane p)
          ])
    ])

unfoldable pub run_realtime {ℓ} :
    {A : Type ℓ} → RealtimeOp A → ℕ → ℕ → ProviderPool → Option (A × ℕ) × ProviderPool
unfolding run_lanes
run_realtime op now preferred p = run_lanes op now (lane_order p preferred) p

-- One round of `ProbeRealtime`, the operation being a new session.
unfoldable pub probe_realtime {ℓ} :
    {A : Type ℓ} → RealtimeOp A → ℕ → List CloudflareLane → ProviderPool → ProviderPool
probe_realtime op now [] p = p
probe_realtime op now (l ∷ ls) p =
    let over = now + (op l).1 in
    if not (has_realtime l)
    then probe_realtime op now ls p
    else probe_realtime op over ls
        (elim (op l).0 [ none ↦ mark_failure over l.lane p | some _ ↦ mark_success over l.lane p ])
