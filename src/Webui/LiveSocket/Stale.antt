-- ===== src/Webui/LiveSocket/Stale.antt =====
-- nexus/webui/src/hooks/useLiveSocket.ts: the close event of a socket that is no longer the current
-- one.
use jaspy.Prelude.{ℕ, Bool, false, some, arith, ◌≡◌, ◌≢◌}
use jaspy.Webui.LiveSocket.{
  Hook, open_state, is_closed, is_live_status, set_ready, set_timeout, clear_probe, clear_timeout,
}
use jaspy.Webui.LiveSocket.Handlers.{on_close}
use jaspy.Webui.LiveSocket.Steps.{closed, step}

module _ {D : Type 0} where
  -- When a socket that is not the current one closes while the current one is open, the current one
  -- stays current and open and the status is no longer live.
  pub closed_stale :
      (s : Hook D) (i j : ℕ) (online : Bool)
      → s.socket_ref ≡ some j
      → s.ready j ≡ open_state
      → i ≢ j
      → is_closed (s.ready i) ≡ false
      → let t = step (closed i online) s in
        (t.socket_ref ≡ some j) × (t.ready j ≡ open_state) × (is_live_status t.status ≡ false)
  unfolding step on_close set_ready set_timeout clear_probe clear_timeout
  closed_stale s i j online current open_j other unclosed =
      ground (arith, current, open_j, other, unclosed)
