-- ===== src/Webui/Text.antt =====
-- Texts as the web interface takes them apart: the `split` and `join` of JavaScript at a single
-- character.
use Prim.Native.Char.{Char, code}
use jaspy.Prelude.{String, List, [], ◌∷◌, if◌then◌else◌, ◌==◌, str_append}
pub mod Split

add_first : Char → List String → List String
add_first c [] = String.◌∷◌ c String.[] ∷ []
add_first c (part ∷ parts) = String.◌∷◌ c part ∷ parts

-- `s.split(d)`
unfoldable pub split : Char → String → List String
unfolding add_first
split d String.[] = String.[] ∷ []
split d (String.◌∷◌ c s) =
    let parts = split d s in if code c == code d then String.[] ∷ parts else add_first c parts

-- `parts.join(separator)`
unfoldable pub join : String → List String → String
join separator [] = String.[]
join separator (part ∷ []) = part
join separator (part ∷ next ∷ parts) =
    str_append part (str_append separator (join separator (next ∷ parts)))
