-- ===== src/Webui/Platform.antt =====
-- What the web interface takes from the browser: `localeCompare` with the numeric option and
-- without, the stable `Array.prototype.sort` and the order of the code units that it takes where it
-- is given none, `trim`, `toLowerCase`, `includes` and `startsWith` of texts, the text of a number,
-- and that of a quotient with two decimals, `(a / b).toFixed(2)`.
use mathlib.Core.List.{Perm}
use jaspy.Prelude.{ℕ, Bool, String, List, ℤ, ◌≡◌, str_append}

pub record Platform : Type 1 where
  pub locale_compare : String → String → ℤ
  pub sort : {A : Type 0} → (A → A → ℤ) → List A → List A
  pub show : ℕ → String
  pub to_fixed : ℕ → ℕ → String
  pub trim : String → String
  pub locale_compare_plain : String → String → ℤ
  pub compare_units : String → String → ℤ
  pub to_lower_case : String → String
  pub includes : String → String → Bool
  pub starts_with : String → String → Bool

-- A sort has the elements that it was given, each as often.
pub record Rearranges (platform : Platform) : Type 1 where
  pub sort-Perm : {A : Type 0} (cmp : A → A → ℤ) (xs : List A) → Perm (platform.sort cmp xs) xs

-- A space in front of a text is trimmed away, and the empty text has nothing to trim.
pub record TrimsSpace (platform : Platform) : Type 0 where
  pub trim_space : (s : String) → platform.trim (str_append " " s) ≡ platform.trim s
  pub trim_blank : platform.trim "" ≡ ""
