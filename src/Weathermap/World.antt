-- ===== src/Weathermap/World.antt =====
-- The state that the map's objects share: the interface objects, the flags of
-- weathermap/js/simulationglobals.js, the calls made to the vendored library pixi.js and the
-- requests sent, both newest first, and the source of random numbers.
use jaspy.Prelude.{
  ℕ, ◌+◌, Bool, true, String, Option, none, some, List, [], ◌∷◌, ◌==◌, if◌then◌else◌,
}
use jaspy.Weathermap.Interface.{Interface, Ref}

-- A display object of pixi.js. The two layers and the viewport are made at the start.
abbrev pub Object : Type 0
Object = ℕ

abbrev pub viewport : Object
viewport = 0

abbrev pub link_layer : Object
link_layer = 1

abbrev pub device_layer : Object
device_layer = 2

-- A colour is an integer, or `none` for NaN.
abbrev pub Color : Type 0
Color = Option ℕ

pub data PixiCall (S : Type 0) : Type 0 where
  new_graphics_of : Object → PixiCall S
  new_text_of : Object → String → PixiCall S
  add_child : Object → Object → PixiCall S
  remove_child : Object → Object → PixiCall S
  clear : Object → PixiCall S
  begin_fill : Object → Color → PixiCall S
  end_fill : Object → PixiCall S
  line_style : Object → ℕ → ℕ → PixiCall S
  move_to : Object → S → S → PixiCall S
  line_to : Object → S → S → PixiCall S
  draw_circle : Object → S → PixiCall S
  set_position : Object → S → S → PixiCall S
  set_rotation : Object → S → PixiCall S
  set_alpha : Object → S → PixiCall S
  set_text : Object → String → PixiCall S

-- `graphicsObjectInfo`
pub record GraphicsInfo : Type 0 where
  pub object : Object
  pub attached_to : Object

-- `simulationGlobals`. The last two are the names that app.js sets and nothing reads.
pub record Globals : Type 0 where
  pub request_graphics_update : Bool
  pub request_animation_update : Bool
  pub position_updates_frozen : Bool
  pub request_pixi_frame : Bool
  pub animation_update_requested : Bool
  pub graphics_update_requested : Bool
  pub screen_width : ℕ
  pub screen_height : ℕ

-- The body of the `PUT` to /position.
pub record PositionPut (S : Type 0) : Type 0 where
  pub device_fqdn : String
  pub x : S
  pub y : S
  pub super_node : Bool
  pub expanded_by_default : Bool

pub record World (S : Type 0) : Type 0 where
  pub heap : Ref → Interface S
  pub next_ref : Ref
  pub next_object : Object
  pub calls : List (PixiCall S)
  pub requests : List (PositionPut S)
  pub globals : Globals
  pub random : ℕ → S
  pub draws : ℕ

module _ {S : Type 0} where
  -- A write through a reference.
  unfoldable pub modify : Ref → (Interface S → Interface S) → World S → World S
  modify r f w = record w { heap = λ q. if r == q then f (w.heap q) else w.heap q }

  -- `new Interface(…)`
  unfoldable pub alloc : Interface S → World S → World S × Ref
  alloc i w = (
    record w { heap = λ q. if w.next_ref == q then i else w.heap q; next_ref = w.next_ref + 1 },
    w.next_ref,
  )

  unfoldable pub call : PixiCall S → World S → World S
  call c w = record w { calls = c ∷ w.calls }

  -- A new display object, attached to its parent.
  unfoldable pub new_object : Object → World S → World S × GraphicsInfo
  new_object parent w = (
    record w {
      next_object = w.next_object + 1;
      calls = add_child parent w.next_object ∷ new_graphics_of w.next_object ∷ w.calls;
    },
    record { object = w.next_object; attached_to = parent },
  )

  -- `new PIXI.Text(…)`
  unfoldable pub new_text : String → World S → World S × Object
  new_text text w = (
    record w { next_object = w.next_object + 1; calls = new_text_of w.next_object text ∷ w.calls },
    w.next_object,
  )

  -- `attachedTo.removeChild(object)`, where there is an object.
  unfoldable pub detach : Option GraphicsInfo → World S → World S
  detach g w = elim g [
    | none ↦ w
    | some i ↦ record w { calls = remove_child i.attached_to i.object ∷ w.calls }
  ]

  -- The two assignments by which most handlers ask for another frame.
  unfoldable pub request_updates : World S → World S
  request_updates w = record w {
    globals = record (w.globals) {
      request_graphics_update = true;
      request_animation_update = true;
    };
  }

  unfoldable pub request_graphics : World S → World S
  request_graphics w = record w { globals = record (w.globals) { request_graphics_update = true } }

  -- Several calls in a row.
  unfoldable pub emit : List (PixiCall S) → World S → World S
  emit [] w = w
  emit (c ∷ cs) w = emit cs (record w { calls = c ∷ w.calls })

  -- The object to draw on: the one that is there, or a new one.
  unfoldable pub ensure : Object → Option GraphicsInfo → World S → World S × GraphicsInfo
  unfolding new_object
  ensure parent (some g) w = (w, g)
  ensure parent none w = new_object parent w
