-- ===== src/Ice/Plan/Modes.antt =====
-- What a transport plan promises (internal/ice/manager.go).
use go_signing_server_anywhe.Prelude.{
  ℕ, ◌≤◌, String, ◌≡◌, refl, ap, ◌∙◌, ◌||◌, inl, inr, Bool, true, false, not, ◌&&◌, Option, none,
  some, List, [], ◌∷◌, arith, ltb, nat_beq, if◌then◌else◌, nat_beq_iff, Bool-cases, nat_eq, int_eq,
  string_eq, has,
}
use go_signing_server_anywhe.Ice.Pool.{
  CloudflareLane, ProviderPool, IceConfig, any_realtime_healthy, available_realtime_lanes,
  is_usable,
}
use go_signing_server_anywhe.Ice.Plan.Servers.{ServerEntry, base_stun_servers}
use go_signing_server_anywhe.Ice.Plan.{
  StreamMode, p2p_preferred, turn_relay, sfu, SfuHint, SessionInput, Manager, is_empty_list,
  sfu_configured, choose_mode, pick_ice_list, lists_of, base_plan, sfu_plan, finish_plan,
  session_plan,
}

-- How much of the server's own media path a mode uses.
unfoldable pub rank : StreamMode → ℕ
rank p2p_preferred = 0
rank turn_relay = 1
rank sfu = 2

unfoldable pub lanes_of : Option SfuHint → List ℕ
lanes_of none = []
lanes_of (some h) = h.provider_lanes

available-empty :
    (p : ProviderPool) (now : ℕ) (ls : List CloudflareLane)
    → is_empty_list (available_realtime_lanes p now ls) ≡ not (any_realtime_healthy p now ls)
unfolding is_empty_list available_realtime_lanes any_realtime_healthy
available-empty p now [] = refl
available-empty p now (l ∷ ls) = ground (arith, available-empty p now ls)

available-is_usable :
    (p : ProviderPool) (now x : ℕ) (ls : List CloudflareLane)
    → has x (available_realtime_lanes p now ls) ≡ true
    → is_usable p now x ≡ true
unfolding available_realtime_lanes has
available-is_usable p now x [] h = absurd (ground arith)
available-is_usable p now x (l ∷ ls) h = elim (Bool-cases (nat_beq l.lane x)) [
  | inl b ↦ ground (arith, available-is_usable p now x ls, (nat_beq_iff l.lane x).0 b)
  | inr b ↦ ground (arith, available-is_usable p now x ls, b)
]

unfoldable pub is_sfu : StreamMode → Bool
is_sfu sfu = true
is_sfu _ = false

finish_plan-lanes :
    (m : Manager) (now : ℕ) (i : SessionInput) (mode : StreamMode) (reason : String)
    → (is_empty_list (lanes_of (finish_plan m now i mode reason).hint)
        ≡ not (is_sfu (finish_plan m now i mode reason).mode))
      × ((x : ℕ)
          → has x (lanes_of (finish_plan m now i mode reason).hint) ≡ true
          → is_usable m.pool now x ≡ true)
unfolding finish_plan sfu_plan lanes_of is_sfu is_empty_list has base_plan
finish_plan-lanes m now i p2p_preferred reason = (refl, λ x h. absurd (ground arith))
finish_plan-lanes m now i turn_relay reason = (refl, λ x h. absurd (ground arith))
finish_plan-lanes m now i sfu reason =
    elim (Bool-cases (any_realtime_healthy m.pool now m.pool.lanes)) [
      | inl u ↦ rw u (
        available-empty m.pool now m.pool.lanes ∙ ground (arith, u),
        λ x. available-is_usable m.pool now x m.pool.lanes,
      )
      | inr u ↦ rw u (refl, λ x h. absurd (ground arith))
    ]

-- A plan names lanes exactly where it is in the mode of the service, and every lane that it names
-- is usable at its time.
pub session_plan-lanes :
    (m : Manager) (now : ℕ) (i : SessionInput)
    → (is_empty_list (lanes_of (session_plan m now i).hint)
        ≡ not (is_sfu (session_plan m now i).mode))
      × ((x : ℕ)
          → has x (lanes_of (session_plan m now i).hint) ≡ true
          → is_usable m.pool now x ≡ true)
unfolding session_plan
session_plan-lanes m now i = finish_plan-lanes m now i (choose_mode m i).0 (choose_mode m i).1

unfoldable pub is_direct : StreamMode → Bool
is_direct p2p_preferred = true
is_direct _ = false

-- A plan that was meant for the service keeps all the servers in its fallback.
finish_plan-servers :
    (m : Manager) (now : ℕ) (i : SessionInput) (mode : StreamMode) (reason : String)
    → (finish_plan m now i mode reason).ice_servers
      ≡ (if is_direct mode then (lists_of m).0 else (lists_of m).1)
unfolding finish_plan sfu_plan pick_ice_list base_plan is_direct
finish_plan-servers m now i p2p_preferred reason = refl
finish_plan-servers m now i turn_relay reason = refl
finish_plan-servers m now i sfu reason =
    elim (Bool-cases (any_realtime_healthy m.pool now m.pool.lanes)) [
      | inl u ↦ rw u refl
      | inr u ↦ rw u refl
    ]

-- The service is on and has a lane.
unfoldable pub is_served : IceConfig → List CloudflareLane → Bool
is_served cfg [] = false
is_served cfg (l ∷ ls) = cfg.enable_cloudflare_sfu

sfu_configured-is_served :
    (on : Bool) (cfg : IceConfig) (lanes : List CloudflareLane)
    → cfg.enable_cloudflare_sfu ≡ on
    → (on && not (is_empty_list lanes)) ≡ is_served cfg lanes
unfolding is_served is_empty_list
sfu_configured-is_served on cfg [] h = ground arith
sfu_configured-is_served on cfg (l ∷ ls) h = ground arith

-- Nothing asks for more than a direct path: no force, no grant, and few enough viewers.
unfoldable pub may_go_direct : IceConfig → List CloudflareLane → SessionInput → Bool
may_go_direct cfg lanes i =
    let few = λ (viewers targets : ℕ).
      ltb i.client_viewer_count viewers && ltb i.admin_viewer_target_count targets in
    not i.force_turn
    && not i.has_stream_relay_grant
    && few cfg.stream_turn_viewer_threshold cfg.stream_turn_admin_targets_threshold
    && (not (is_served cfg lanes)
        || few cfg.stream_sfu_viewer_threshold cfg.stream_sfu_admin_targets_threshold)

chosen-direct :
    (m : Manager) (i : SessionInput)
    → is_direct (choose_mode m i).0 ≡ may_go_direct m.cfg m.pool.lanes i
unfolding choose_mode sfu_configured is_direct may_go_direct
chosen-direct m i =
    ground (arith, sfu_configured-is_served m.cfg.enable_cloudflare_sfu m.cfg m.pool.lanes refl)

in_full :
    (full stun : List ServerEntry) (b : Bool)
    → let lists : List ServerEntry × List ServerEntry =
        if is_empty_list full then (base_stun_servers, base_stun_servers) else (stun, full) in
      (if b then lists.0 else lists.1)
      ≡ (elim full [ [] ↦ base_stun_servers | e ∷ es ↦ if b then stun else e ∷ es ])
unfolding is_empty_list
in_full [] stun b = ground arith
in_full (e ∷ es) stun b = ground arith

gathered :
    (m : Manager) (b : Bool)
    → (if b then (lists_of m).0 else (lists_of m).1)
      ≡ (elim m.full [ [] ↦ base_stun_servers | e ∷ es ↦ if b then m.stun_only else e ∷ es ])
unfolding lists_of
gathered m b = in_full m.full m.stun_only b

-- With nothing gathered, a session gets the built-in STUN servers. Otherwise it gets the STUN
-- servers alone exactly where it is neither forced to a relay nor has a grant for one, and both
-- counts of viewers are below the limits of a relayed path and, where the service is on and has
-- lanes, below those of the service; in all other cases, lanes that are down included, it gets all
-- the servers.
pub session_plan-servers :
    (m : Manager) (now : ℕ) (i : SessionInput)
    → (session_plan m now i).ice_servers ≡ (elim m.full [
      | [] ↦ base_stun_servers
      | e ∷ es ↦ if may_go_direct m.cfg m.pool.lanes i then m.stun_only else e ∷ es
    ])
unfolding session_plan
session_plan-servers m now i =
    finish_plan-servers m now i (choose_mode m i).0 (choose_mode m i).1
    ∙ (ap (λ b. if b then (lists_of m).0 else (lists_of m).1) (chosen-direct m i)
        ∙ gathered m (may_go_direct m.cfg m.pool.lanes i))

-- The rank of the mode that a plan ends in.
ended : Bool → ℕ → ℕ
ended up r = if ltb 1 r && not up then 1 else r

finish_plan-rank :
    (m : Manager) (now : ℕ) (i : SessionInput) (mode : StreamMode) (reason : String)
    → rank (finish_plan m now i mode reason).mode
      ≡ ended (any_realtime_healthy m.pool now m.pool.lanes) (rank mode)
unfolding finish_plan sfu_plan rank ended base_plan
finish_plan-rank m now i p2p_preferred reason = ground arith
finish_plan-rank m now i turn_relay reason = ground arith
finish_plan-rank m now i sfu reason =
    elim (Bool-cases (any_realtime_healthy m.pool now m.pool.lanes)) [
      | inl u ↦ rw u (ground arith)
      | inr u ↦ rw u (ground arith)
    ]

choose_mode-rank :
    (m : Manager) (i i' : SessionInput)
    → i'.force_turn ≡ i.force_turn
    → i'.has_stream_relay_grant ≡ i.has_stream_relay_grant
    → i.client_viewer_count ≤ i'.client_viewer_count
    → i.admin_viewer_target_count ≤ i'.admin_viewer_target_count
    → rank (choose_mode m i).0 ≤ rank (choose_mode m i').0
unfolding choose_mode rank
choose_mode-rank m i i' f g v a = ground arith

-- More viewers of a client, or more clients of an admin, never take a session back to a more
-- direct path, with the same request and the same health of the lanes.
pub session_plan-monotone :
    (m : Manager) (now : ℕ) (i i' : SessionInput)
    → i'.force_turn ≡ i.force_turn
    → i'.has_stream_relay_grant ≡ i.has_stream_relay_grant
    → i.client_viewer_count ≤ i'.client_viewer_count
    → i.admin_viewer_target_count ≤ i'.admin_viewer_target_count
    → rank (session_plan m now i).mode ≤ rank (session_plan m now i').mode
unfolding session_plan ended
session_plan-monotone m now i i' f g v a = ground (
  arith,
  finish_plan-rank m now i (choose_mode m i).0 (choose_mode m i).1,
  finish_plan-rank m now i' (choose_mode m i').0 (choose_mode m i').1,
  choose_mode-rank m i i' f g v a,
)
