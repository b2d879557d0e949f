-- ===== src/Ice/Plan.antt =====
-- The transport plan of a session (internal/ice/manager.go, policy.go).
-- The time of a plan is an argument; the lists of servers are those of the last refresh.
pub mod Servers
pub mod Modes
pub mod Merge
use go_signing_server_anywhe.Prelude.{
  ℕ, zero, suc, ◌+◌, ◌-◌, ◌*◌, ◌/◌, ◌%◌, ◌^◌, ◌≤◌, ◌<◌, String, ◌≡◌, refl, sym, ap, ◌∙◌, ◌≢◌, ◌↔◌,
  ◌⊎◌, inl, inr, Bool, true, false, not, ◌&&◌, ◌||◌, Option, none, some, List, [], ◌∷◌, ◌++◌, map,
  arith, eq_iff, ltb, leb, nat_beq, if◌then◌else◌, ltb→lt, lt→ltb, leb→le, le→leb, nat_beq_iff,
  tests, Bool-cases, Option-cases, ℤ, pos, negsuc, pos_part, neg_part, sub_ℕ, ◌+ℤ◌, ◌-ℤ◌, ◌≤ℤ◌,
  ◌<ℤ◌, ltb_ℤ, leb_ℤ, int_beq, int_beq_iff, Eq, ◌==◌, ◌!=◌, nat_eq, int_eq, string_eq, string_beq,
  string_beq_iff, beq_refl, length, take, keep, count, length-append, length-keep-le,
  length-keep-count, keep-append, has, add, remove, IsSetList, has-add, has-remove, add-IsSetList,
  remove-IsSetList, remove_absent, length-remove, length-remove-le,
}
use go_signing_server_anywhe.Ice.Pool.{
  CloudflareLane, ProviderPool, IceConfig, any_realtime_healthy, available_realtime_lanes,
}
use Servers.{ServerEntry, base_stun_servers}

pub data StreamMode : Type 0 where
  p2p_preferred turn_relay sfu : StreamMode

pub record SfuHint : Type 0 where
  pub role : String
  pub track_name : String
  pub publisher_session_id : String
  pub publisher_client_id : ℤ
  pub provider_lane : ℤ
  pub provider_lanes : List ℕ
  pub fallback_modes : List StreamMode

pub record TransportPlan : Type 0 where
  pub mode : StreamMode
  pub reason : String
  pub phase_one_ms : ℕ
  pub ice_servers : List ServerEntry
  pub ice_servers_stun : List ServerEntry
  pub ice_servers_full : List ServerEntry
  pub viewer_count : ℕ
  pub admin_target_count : ℕ
  pub hint : Option SfuHint

pub record SessionInput : Type 0 where
  pub client_viewer_count : ℕ
  pub admin_viewer_target_count : ℕ
  pub has_stream_relay_grant : Bool
  pub force_turn : Bool

-- `Manager`; a pool is always there.
pub record Manager : Type 0 where
  pub cfg : IceConfig
  pub pool : ProviderPool
  pub full : List ServerEntry
  pub stun_only : List ServerEntry

unfoldable pub is_empty_list {ℓ} : {A : Type ℓ} → List A → Bool
is_empty_list [] = true
is_empty_list (x ∷ xs) = false

unfoldable pub sfu_configured : Manager → Bool
unfolding is_empty_list
sfu_configured m = m.cfg.enable_cloudflare_sfu && not (is_empty_list m.pool.lanes)

unfoldable pub choose_mode : Manager → SessionInput → StreamMode × String
unfolding sfu_configured
choose_mode m in' =
    let vc = in'.client_viewer_count in
    let at = in'.admin_viewer_target_count in
    if in'.force_turn || in'.has_stream_relay_grant
    then (turn_relay, "relay_grant_or_forced")
    else if sfu_configured m
        && (leb m.cfg.stream_sfu_viewer_threshold vc
            || leb m.cfg.stream_sfu_admin_targets_threshold at)
    then (sfu, "multi_viewer_sfu")
    else if leb m.cfg.stream_turn_viewer_threshold vc
        || leb m.cfg.stream_turn_admin_targets_threshold at
    then (turn_relay, "multi_viewer_turn")
    else (p2p_preferred, "single_viewer_p2p_first")

unfoldable pub pick_ice_list : StreamMode → List ServerEntry → List ServerEntry → List ServerEntry
pick_ice_list p2p_preferred stun full = stun
pick_ice_list _ stun full = full

-- The lists of a plan: the STUN servers stand in for both where nothing was gathered.
unfoldable pub lists_of : Manager → List ServerEntry × List ServerEntry
unfolding is_empty_list
lists_of m =
    if is_empty_list m.full then (base_stun_servers, base_stun_servers) else (m.stun_only, m.full)

unfoldable pub welcome_plan : Manager → TransportPlan
unfolding lists_of
welcome_plan m =
    let (stun, full) = lists_of m in
    record {
      mode = p2p_preferred;
      reason = "default_welcome";
      phase_one_ms = m.cfg.ice_phase_one_ms;
      ice_servers = full;
      ice_servers_stun = stun;
      ice_servers_full = full;
      viewer_count = 0;
      admin_target_count = 0;
      hint = none;
    }

unfoldable pub base_plan : Manager → SessionInput → StreamMode → String → TransportPlan
unfolding lists_of pick_ice_list
base_plan m in' mode reason =
    let (stun, full) = lists_of m in
    record {
      mode = mode;
      reason = reason;
      phase_one_ms = m.cfg.ice_phase_one_ms;
      ice_servers = pick_ice_list mode stun full;
      ice_servers_stun = stun;
      ice_servers_full = full;
      viewer_count = in'.client_viewer_count;
      admin_target_count = in'.admin_viewer_target_count;
      hint = none;
    }

-- The plan in the mode of the service, or its fallback where no lane of it is up.
unfoldable pub sfu_plan : Manager → ℕ → TransportPlan → TransportPlan
unfolding lists_of
sfu_plan m now plan =
    if not (any_realtime_healthy m.pool now m.pool.lanes)
    then record plan {
      mode = turn_relay;
      reason = "sfu_lanes_down_turn_fallback";
      ice_servers = plan.ice_servers_full;
    }
    else record plan {
      hint = some (record {
        role = "";
        track_name = "";
        publisher_session_id = "";
        publisher_client_id = pos 0;
        provider_lane = pos m.pool.prefer;
        provider_lanes = available_realtime_lanes m.pool now m.pool.lanes;
        fallback_modes = turn_relay ∷ p2p_preferred ∷ [];
      });
    }

unfoldable pub finish_plan : Manager → ℕ → SessionInput → StreamMode → String → TransportPlan
unfolding sfu_plan base_plan
finish_plan m now in' sfu reason = sfu_plan m now (base_plan m in' sfu reason)
finish_plan m now in' mode reason = base_plan m in' mode reason

unfoldable pub session_plan : Manager → ℕ → SessionInput → TransportPlan
unfolding finish_plan choose_mode
session_plan m now in' = let (mode, reason) = choose_mode m in' in finish_plan m now in' mode reason
