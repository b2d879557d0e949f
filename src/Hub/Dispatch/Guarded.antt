-- ===== src/Hub/Dispatch/Guarded.antt =====
-- Which messages can change the database without a session.
use go_signing_server_anywhe.Prelude.{
  ℕ, String, ◌≡◌, refl, inl, inr, false, some, ◌++◌, arith, Bool-cases, Option-cases, nat_eq,
  int_eq, string_eq, string_beq, has,
}
use go_signing_server_anywhe.Text.{is_empty}
use go_signing_server_anywhe.Util.{msg_type, message_skips_rate_limit, webrtc_relay_types}
use go_signing_server_anywhe.RateLimit.{take_tokens}
use go_signing_server_anywhe.Hub.Types.{Conn}
use go_signing_server_anywhe.Hub.Types.Json.{Msg}
use go_signing_server_anywhe.Hub.World.{Env}
use go_signing_server_anywhe.Hub.Settings.{public_list_orgs, handle_admin_set_ui_features}
use go_signing_server_anywhe.Hub.Grants.{handle_remote_access, handle_stream_relay}
use go_signing_server_anywhe.Hub.Relay.{relay_signaling}
use go_signing_server_anywhe.Hub.Legacy.{handle_stream_transport_upgrade}
use go_signing_server_anywhe.Hub.Dispatch.{
  Server, Services, handler_for, entries_for, handlers, media_handlers, legacy_handlers, on_world,
  on_world_or_panic, remote_access_types, stream_relay_types, serve_type, with_bucket,
  handle_message,
}
use go_signing_server_anywhe.Hub.Dispatch.Refused.{
  NoSession, create_transfer-refused, respond_transfer-refused, update_org-refused,
  get_clients-refused, stop_viewing-refused, focus-refused, remove_client-refused,
  force_update-refused, reset_password-refused, remote_access-refused, stream_relay-refused,
  register-refused, orgs-refused, org_leads-refused, get_features-refused, get_window-refused,
  set_window-refused, resettable-refused, transfers-refused, set_features-refused,
  audit_list-refused, audit_review-refused, audit_get-refused, audit_mutate-refused,
  relay_signaling-store,
}
use go_signing_server_anywhe.Hub.Dispatch.Keeping.{
  open_types, KeepsStore, AllKeep, AllKeep-entries, AllKeep-found,
}

module _ (env : Env) (x : Services) (sid : String) (c : Conn) (msg : Msg) (v : Server)
    (h : NoSession env msg v.world.store) where
  set_features-keeps : KeepsStore v (on_world_or_panic (handle_admin_set_ui_features env sid msg) v)
  set_features-keeps =
      let (w, e, same) = set_features-refused env sid msg v.world h in
      rw (e, on_world_or_panic) (record v { world = w }, refl, same)

  upgrade-store :
      (handle_stream_transport_upgrade env v.ice sid c msg v.world).store ≡ v.world.store
  unfolding handle_stream_transport_upgrade
  upgrade-store = ground arith

  AllKeep-legacy : AllKeep v (legacy_handlers env x sid c msg v)
  unfolding legacy_handlers has open_types string_beq
  AllKeep-legacy = (
    inl refl,
    (
      inl refl,
      (
        inl refl,
        (
          inl refl,
          (
            inr (_, refl, stop_viewing-refused env sid msg v.world h),
            (
              inr (_, refl, focus-refused env sid msg v.world h),
              (inr (_, refl, refl), (inr (_, refl, refl), (inl refl, tt))),
            ),
          ),
        ),
      ),
    ),
  )

  AllKeep-media : AllKeep v (media_handlers env x sid c msg v)
  unfolding media_handlers has open_types string_beq
  AllKeep-media = (
    inr (_, refl, refl),
    (
      inr (_, refl, refl),
      (
        inl refl,
        (
          inr (_, refl, upgrade-store),
          (
            inr (_, refl, refl),
            (
              inr (_, refl, refl),
              (
                inr (_, refl, refl),
                AllKeep-entries v remote_access_types
                    (on_world (handle_remote_access env sid (msg_type msg) msg))
                    (entries_for stream_relay_types
                        (on_world (handle_stream_relay env sid (msg_type msg) msg))
                      ++ legacy_handlers env x sid c msg v)
                    (_, refl, remote_access-refused env sid msg v.world h (msg_type msg))
                    (AllKeep-entries v stream_relay_types
                      (on_world (handle_stream_relay env sid (msg_type msg) msg))
                      (legacy_handlers env x sid c msg v)
                      (_, refl, stream_relay-refused env sid msg v.world h (msg_type msg))
                      AllKeep-legacy),
              ),
            ),
          ),
        ),
      ),
    ),
  )

  AllKeep-handlers : AllKeep v (handlers env x sid c msg v)
  unfolding handlers has open_types string_beq public_list_orgs
  AllKeep-handlers = (
    inr (_, refl, refl),
    (
      inl refl,
      (
        inr (_, refl, register-refused env sid msg v.world h),
        (
          inl refl,
          (
            inl refl,
            (
              inr (_, refl, orgs-refused env sid msg v.world h _),
              (
                inr (_, refl, org_leads-refused env sid msg v.world h),
                (
                  inr (_, refl, get_clients-refused env sid msg v.world h),
                  (
                    inr (_, refl, orgs-refused env sid msg v.world h _),
                    (
                      inr (_, refl, transfers-refused env sid msg v.world h),
                      (
                        inr (_, refl, create_transfer-refused env sid msg v.world h),
                        (
                          inr (_, refl, respond_transfer-refused env sid msg v.world h),
                          (
                            inr (_, refl, get_features-refused env sid msg v.world h),
                            (
                              inr set_features-keeps,
                              (
                                inr (_, refl, resettable-refused env sid msg v.world h),
                                (
                                  inr (_, refl, reset_password-refused env sid msg v.world h _),
                                  (
                                    inr (_, refl, get_window-refused env sid msg v.world h),
                                    (
                                      inr (_, refl, set_window-refused env sid msg v.world h),
                                      (
                                        inr (_, refl, update_org-refused env sid msg v.world h),
                                        (
                                          inr (
                                            _,
                                            refl,
                                            remove_client-refused env sid msg v.world h,
                                          ),
                                          (
                                            inr (
                                              _,
                                              refl,
                                              force_update-refused env sid msg v.world h,
                                            ),
                                            (
                                              inr (
                                                _,
                                                refl,
                                                audit_list-refused env sid msg v.world h x.audit
                                                    x.exchange,
                                              ),
                                              (
                                                inr (
                                                  _,
                                                  refl,
                                                  audit_review-refused env sid msg v.world h x.audit
                                                      x.exchange,
                                                ),
                                                (
                                                  inr (
                                                    _,
                                                    refl,
                                                    audit_get-refused env sid msg v.world h x.audit
                                                        x.exchange,
                                                  ),
                                                  (
                                                    inr (
                                                      _,
                                                      refl,
                                                      audit_mutate-refused env sid msg v.world h
                                                          x.audit x.exchange,
                                                    ),
                                                    AllKeep-entries v webrtc_relay_types
                                                        (on_world (relay_signaling env sid c msg))
                                                        (media_handlers env x sid c msg v)
                                                        (
                                                          _,
                                                          refl,
                                                          relay_signaling-store env sid c msg
                                                            v.world,
                                                        )
                                                        AllKeep-media,
                                                  ),
                                                ),
                                              ),
                                            ),
                                          ),
                                        ),
                                      ),
                                    ),
                                  ),
                                ),
                              ),
                            ),
                          ),
                        ),
                      ),
                    ),
                  ),
                ),
              ),
            ),
          ),
        ),
      ),
    ),
  )

  serve_type-keeps :
      has (msg_type msg) open_types ≡ false → KeepsStore v (serve_type env x sid c msg v)
  unfolding serve_type
  serve_type-keeps closed = elim (Bool-cases (is_empty (msg_type msg))) [
    | inl e ↦ rw (e, serve_type) (_, refl, refl)
    | inr e ↦ elim (Option-cases (handler_for (msg_type msg) (handlers env x sid c msg v))) [
      | inl n ↦ rw (e, n, serve_type) (_, refl, refl)
      | inr (f, n) ↦
          rw (e, n, serve_type)
            (AllKeep-found v (msg_type msg) (handlers env x sid c msg v) f closed AllKeep-handlers
              n)
    ]
  ]

-- A message without the token of a valid session leaves the database as it was and the server
-- running, whatever its content, unless its type is one of nine: sign-in and sign-out, a client's
-- heartbeat, path report and departure, and the messages of older clients and agents.
pub handle_message-keeps :
    (clock : ℕ) (env : Env) (x : Services) (sid : String) (c : Conn) (msg : Msg) (v : Server)
    → NoSession env msg v.world.store
    → has (msg_type msg) open_types ≡ false
    → (v' : Server) × (handle_message clock env x sid c msg v ≡ some v')
      × (v'.world.store ≡ v.world.store)
unfolding handle_message with_bucket
handle_message-keeps clock env x sid c msg v h closed =
    elim (Bool-cases (message_skips_rate_limit (msg_type msg))) [
      | inl e ↦ rw (e, handle_message) (serve_type-keeps env x sid c msg v h closed)
      | inr e ↦ elim (Bool-cases (take_tokens 1 clock c.bucket).1) [
        | inl p ↦
            rw (e, p, handle_message)
              (serve_type-keeps env x sid (record c { bucket = (take_tokens 1 clock c.bucket).0 })
                msg (with_bucket (take_tokens 1 clock c.bucket).0 sid v) h closed)
        | inr p ↦ rw (e, p, handle_message) (_, refl, refl)
      ]
    ]
