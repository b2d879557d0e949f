-- ===== src/Examples/IceRuns.antt =====
-- Runs of the lanes and the plans.
use go_signing_server_anywhe.Prelude.{
  ℕ, ◌-◌, ◌≤◌, String, ◌≡◌, refl, ◌≢◌, true, false, not, ◌&&◌, none, some, List, [], ◌∷◌, arith,
  leb, if◌then◌else◌, ◌==◌, nat_eq, int_eq, string_eq, has, IsSetList,
}
use go_signing_server_anywhe.Prelude.Map.{get, put}
use go_signing_server_anywhe.Ice.Pool.{
  LaneHealth, RealtimeOp, lane_order, lane_configured, is_usable, mark_failure, mark_success,
  run_realtime, new_provider_pool, load_cloudflare_lanes, load_lane, start_health, pool_cooldown,
  is_blank, lane_by_id, has_realtime,
}
use go_signing_server_anywhe.Ice.Pool.Order.{lane_order-exact}
use go_signing_server_anywhe.Ice.Pool.Health.{reports-is_usable}
use go_signing_server_anywhe.Ice.Pool.Failover.{
  try, first_answer, run_realtime-first, run_realtime-answers,
}
use go_signing_server_anywhe.Ice.Plan.{SessionInput, session_plan, is_empty_list}
use go_signing_server_anywhe.Ice.Plan.Modes.{
  rank, lanes_of, is_sfu, may_go_direct, session_plan-lanes, session_plan-servers,
  session_plan-monotone,
}
use go_signing_server_anywhe.Ice.Plan.Servers.{ServerEntry, base_stun_servers, merge_ice_lists}
use go_signing_server_anywhe.Ice.Plan.Merge.{keys, has_part, merge_ice_lists-exact}
use go_signing_server_anywhe.Text.{is_empty, trim_space, trim_left, trim_right, is_space}
use go_signing_server_anywhe.Examples.Data.{a_pool, a_manager}

lane_order-exact_example :
    IsSetList (lane_order a_pool 2)
    × ((x : ℕ) → has x (lane_order a_pool 2) ≡ lane_configured x a_pool.lanes)
lane_order-exact_example = lane_order-exact a_pool 2

abbrev fresh : LaneHealth
fresh = record { healthy = true; last_fail = 0; last_ok = 0; fail_streak = 0; cooldown = 20000 }

fresh_lane : get 1 a_pool.health ≡ some fresh
unfolding new_provider_pool load_cloudflare_lanes load_lane start_health pool_cooldown is_blank get
    put is_empty trim_space trim_left trim_right is_space
fresh_lane = refl

reports-is_usable_example :
    (is_usable (mark_failure 200 1 (mark_failure 100 1 a_pool)) 300 1 ≡ leb 20000 (300 - 200))
    × (is_usable (mark_success 250 1 (mark_failure 200 1 (mark_failure 100 1 a_pool))) 300 1 ≡ true)
reports-is_usable_example = reports-is_usable 100 200 250 300 300 1 fresh a_pool fresh_lane

-- A service that answers on the second lane only, and fails on the first after 45 seconds.
abbrev second_only : RealtimeOp String
second_only l = if l.lane == 2 then (some "session", 800) else (none, 45000)

run_realtime-first_example :
    (run_realtime second_only 100 1 a_pool).0
    ≡ first_answer second_only a_pool 100 (lane_order a_pool 1)
run_realtime-first_example = run_realtime-first second_only 100 1 a_pool

second_configured : lane_configured 2 a_pool.lanes ≡ true
unfolding new_provider_pool load_cloudflare_lanes load_lane is_blank lane_configured is_empty
    trim_space trim_left trim_right is_space
second_configured = refl

second_answers : try second_only a_pool 100 2 ≡ some (some "session", 800)
unfolding try new_provider_pool load_cloudflare_lanes load_lane start_health pool_cooldown is_blank
    get put is_empty trim_space trim_left trim_right is_space is_usable lane_by_id has_realtime
second_answers = refl

run_realtime-answers_example : (run_realtime second_only 100 1 a_pool).0 ≢ none
run_realtime-answers_example =
    run_realtime-answers second_only 100 1 2 "session" 800 a_pool second_configured second_answers

abbrev one_viewer : SessionInput
one_viewer = record {
  client_viewer_count = 1;
  admin_viewer_target_count = 1;
  has_stream_relay_grant = false;
  force_turn = false;
}

abbrev two_viewers : SessionInput
two_viewers = record one_viewer { client_viewer_count = 2 }

session_plan-lanes_example :
    (is_empty_list (lanes_of (session_plan a_manager 100 two_viewers).hint)
      ≡ not (is_sfu (session_plan a_manager 100 two_viewers).mode))
    × ((x : ℕ)
        → has x (lanes_of (session_plan a_manager 100 two_viewers).hint) ≡ true
        → is_usable a_manager.pool 100 x ≡ true)
session_plan-lanes_example = session_plan-lanes a_manager 100 two_viewers

session_plan-servers_example :
    (session_plan a_manager 100 two_viewers).ice_servers ≡ (elim a_manager.full [
      | [] ↦ base_stun_servers
      | e ∷ es ↦
          if may_go_direct a_manager.cfg a_manager.pool.lanes two_viewers
          then a_manager.stun_only
          else e ∷ es
    ])
session_plan-servers_example = session_plan-servers a_manager 100 two_viewers

session_plan-monotone_example :
    rank (session_plan a_manager 100 one_viewer).mode
    ≤ rank (session_plan a_manager 100 two_viewers).mode
session_plan-monotone_example =
    session_plan-monotone a_manager 100 one_viewer two_viewers refl refl (omega arith) (omega arith)

abbrev two_parts : List (List ServerEntry)
two_parts = base_stun_servers ∷ base_stun_servers ∷ []

merge_ice_lists-exact_example :
    IsSetList (keys (merge_ice_lists two_parts))
    × ((k : String)
        → has k (keys (merge_ice_lists two_parts)) ≡ (has_part k two_parts && not (is_empty k)))
merge_ice_lists-exact_example = merge_ice_lists-exact two_parts
