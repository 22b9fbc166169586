-- ===== src/Weathermap/Keyboard/Laws.antt =====
-- weathermap/js/util.js: the calls that `keyboard` makes over a row of events.
use jaspy.Prelude.{ℕ, suc, ◌+◌, true, not, List, [], ◌∷◌, ◌++◌, ◌≡◌, refl, arith, if◌then◌else◌}
use jaspy.Weathermap.Keyboard.{
  Key, KeyEvent, KeyCall, key_down, key_up, pressed, released, handle, handle_all, down_handler,
  up_handler,
}

unfoldable pub presses : List KeyCall → ℕ
presses [] = 0
presses (pressed ∷ cs) = suc (presses cs)
presses (released ∷ cs) = presses cs

unfoldable pub releases : List KeyCall → ℕ
releases [] = 0
releases (pressed ∷ cs) = releases cs
releases (released ∷ cs) = suc (releases cs)

presses-append : (cs ds : List KeyCall) → presses (cs ++ ds) ≡ presses cs + presses ds
unfolding presses
presses-append [] ds = omega arith
presses-append (pressed ∷ cs) ds = omega (arith, presses-append cs ds)
presses-append (released ∷ cs) ds = presses-append cs ds

releases-append : (cs ds : List KeyCall) → releases (cs ++ ds) ≡ releases cs + releases ds
unfolding releases
releases-append [] ds = omega arith
releases-append (pressed ∷ cs) ds = releases-append cs ds
releases-append (released ∷ cs) ds = omega (arith, releases-append cs ds)

-- 1 for a key that is down.
abbrev pub held : Key → ℕ
held key = if key.is_down then 1 else 0

-- A key with both handlers, whose two flags differ.
pub record IsReady (key : Key) : Type 0 where
  pub press : key.press ≡ true
  pub release : key.release ≡ true
  pub flags : key.is_up ≡ not key.is_down

handle-IsReady : (e : KeyEvent) (key : Key) → IsReady key → IsReady (handle e key).0
unfolding handle down_handler up_handler
handle-IsReady (key_down c) key r = ground arith
handle-IsReady (key_up c) key r = ground arith

handle-balance :
    (e : KeyEvent) (key : Key)
    → IsReady key
    → presses (handle e key).1 + held key ≡ releases (handle e key).1 + held (handle e key).0
unfolding handle down_handler up_handler presses releases
handle-balance (key_down c) key r = ground arith
handle-balance (key_up c) key r = ground arith

-- Over any row of events, a key with both handlers set and with flags that differ calls press as
-- often as release, once more where the key ends down and once less where it began down.
pub handle_all-balance :
    (es : List KeyEvent) (key : Key)
    → IsReady key
    → presses (handle_all es key).1 + held key
      ≡ releases (handle_all es key).1 + held (handle_all es key).0
unfolding handle_all
handle_all-balance [] key r = unfold presses releases in refl
handle_all-balance (e ∷ es) key r =
    let (key', calls) = handle e key in
    omega (
      arith,
      handle-balance e key r,
      handle_all-balance es key' (handle-IsReady e key r),
      presses-append calls (handle_all es key').1,
      releases-append calls (handle_all es key').1,
    )
