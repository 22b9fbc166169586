-- ===== src/Webui/LiveSocket/Handlers.antt =====
-- nexus/webui/src/hooks/useLiveSocket.ts: the functions and the handlers of the effect.
use jaspy.Prelude.{
  ℕ, suc, ◌*◌, min, Bool, true, false, ◌||◌, String, none, some, [], ◌∷◌, ◌++◌, if◌then◌else◌,
}
use jaspy.Webui.LiveSocket.{
  backoff_min_ms, backoff_max_ms, live, connecting, down, handshaking, open_state, Closure, Timer,
  retry, connect_timeout, probe_timeout, Frame, malformed, pong, payload, Hook, is_live,
  is_handshaking, is_live_status, close, close_ref, clear_timeout, set_timeout, clear_probe, ref_is,
  new_socket,
}

module _ {D : Type 0} where
  unfoldable pub connect : Closure → Hook D → Hook D
  unfolding clear_timeout clear_probe new_socket
  connect c s =
      let cleared = clear_probe (clear_timeout s.retry_timer s) in
      let shown =
        if is_live_status c.status then cleared else record cleared { status = connecting } in
      if s.disposed || ref_is is_live s then s else new_socket c shown

  unfoldable pub on_open : Hook D → Hook D
  unfolding clear_timeout
  on_open s = record (clear_timeout s.connect_timer s) {
    backoff_ms = backoff_min_ms;
    status = live;
    opens = suc s.opens;
  }

  unfoldable pub on_message : Frame D → Hook D → Hook D
  unfolding clear_probe
  on_message malformed s = s
  on_message pong s = clear_probe s
  on_message (payload d) s = record s { received = s.received ++ (d ∷ []) }

  unfoldable pub on_close : Closure → Bool → Hook D → Hook D
  unfolding clear_timeout clear_probe set_timeout
  on_close c online s =
      let shown = record (clear_probe (clear_timeout s.connect_timer s)) {
        status = if online then connecting else down;
      } in
      if s.disposed then shown else record (set_timeout (retry c) shown) {
        retry_timer = some s.timers;
        backoff_ms = min (s.backoff_ms * 2) backoff_max_ms;
      }

  -- The ping and its timeout, or the close of a socket that cannot send.
  unfoldable pub probe : Bool → ℕ → Hook D → Hook D
  unfolding close set_timeout
  probe sends i s =
      if sends
      then record (set_timeout probe_timeout s) { probe_timer = some s.timers }
      else close i (record s { backoff_ms = backoff_min_ms })

  unfoldable pub check_connection : Closure → Bool → Hook D → Hook D
  unfolding connect probe
  check_connection c sends s =
      let reconnect = connect c (record s { backoff_ms = backoff_min_ms }) in
      if s.disposed then s else elim s.socket_ref [
        | none ↦ reconnect
        | some i ↦ elim (s.ready i) [
          | open_state ↦ elim s.probe_timer [ none ↦ probe sends i s | some _ ↦ s ]
          | handshaking ↦ s
          | _ ↦ reconnect
        ]
      ]

  -- The callback of a timer.
  unfoldable pub run_timer : Timer → Hook D → Hook D
  unfolding connect close
  run_timer (retry c) s = connect c s
  run_timer (connect_timeout i) s = if is_handshaking (s.ready i) then close i s else s
  run_timer probe_timeout s = close_ref (record s { probe_timer = none })

  unfoldable pub fire : ℕ → Hook D → Hook D
  unfolding clear_timeout run_timer
  fire t s = elim (s.pending t) [
    | none ↦ s
    | some timer ↦ run_timer timer (clear_timeout (some t) s)
  ]

  unfoldable pub start_effect : String → Hook D → Hook D
  unfolding connect
  start_effect topic s =
      let c : Closure = record { topic = topic; status = s.status } in
      connect c (record s {
        disposed = false;
        backoff_ms = backoff_min_ms;
        listening = some c;
        check_ref = some c;
      })

  unfoldable pub clean_up : Hook D → Hook D
  unfolding clear_timeout clear_probe close
  clean_up s =
      let stopped = record s { disposed = true; listening = none } in
      let cleared =
        clear_probe (clear_timeout s.connect_timer (clear_timeout s.retry_timer stopped)) in
      record (close_ref cleared) { socket_ref = none }

  -- A listener of the mounted effect.
  unfoldable pub on_wake : Bool → Bool → Hook D → Hook D
  unfolding check_connection
  on_wake visible sends s = elim s.listening [
    | none ↦ s
    | some c ↦ if visible then check_connection c sends s else s
  ]

  unfoldable pub on_offline : Hook D → Hook D
  unfolding close
  on_offline s = elim s.listening [ none ↦ s | some c ↦ close_ref (record s { status = down }) ]

  unfoldable pub on_nudge : Bool → Hook D → Hook D
  unfolding check_connection
  on_nudge sends s = elim s.check_ref [
    | none ↦ record s { backoff_ms = backoff_min_ms }
    | some c ↦ check_connection c sends (record s { backoff_ms = backoff_min_ms })
  ]
