-- ===== src/Weathermap/Keyboard.antt =====
-- weathermap/js/util.js: `keyboard`, which turns the events of one key into calls of two handlers.
pub mod Laws
use jaspy.Prelude.{ℕ, Bool, true, false, ◌&&◌, List, [], ◌∷◌, ◌++◌, ◌==◌, if◌then◌else◌}

-- `press` and `release` tell whether a handler is set.
pub record Key : Type 0 where
  pub code : ℕ
  pub is_down : Bool
  pub is_up : Bool
  pub press : Bool
  pub release : Bool

pub data KeyEvent : Type 0 where
  key_down : ℕ → KeyEvent
  key_up : ℕ → KeyEvent

-- A call of a handler.
pub data KeyCall : Type 0 where
  pressed released : KeyCall

unfoldable pub keyboard : ℕ → Key
keyboard key_code = record {
  code = key_code;
  is_down = false;
  is_up = true;
  press = false;
  release = false;
}

unfoldable pub down_handler : ℕ → Key → Key × List KeyCall
down_handler key_code key =
    if key_code == key.code
    then (
      record key { is_down = true; is_up = false },
      if key.is_up && key.press then pressed ∷ [] else [],
    )
    else (key, [])

unfoldable pub up_handler : ℕ → Key → Key × List KeyCall
up_handler key_code key =
    if key_code == key.code
    then (
      record key { is_down = false; is_up = true },
      if key.is_down && key.release then released ∷ [] else [],
    )
    else (key, [])

unfoldable pub handle : KeyEvent → Key → Key × List KeyCall
unfolding down_handler up_handler
handle (key_down key_code) key = down_handler key_code key
handle (key_up key_code) key = up_handler key_code key

-- The events of the window, one after another.
unfoldable pub handle_all : List KeyEvent → Key → Key × List KeyCall
handle_all [] key = (key, [])
handle_all (e ∷ es) key =
    let (key', calls) = handle e key in
    let (key'', later) = handle_all es key' in (key'', calls ++ later)
