-- ===== src/Webui/Client.antt =====
-- nexus/webui/src/api/client.ts: the answer to a request, and the texts of times and VLANs.
use jaspy.Prelude.{
  ℕ, ◌+◌, ◌-◌, ◌*◌, ◌/◌, ◌%◌, ◌≤◌, ◌<◌, Bool, String, Option, none, some, List, [], ◌∷◌,
  if◌then◌else◌, str_eq, str_append, ltb, arith,
}
use jaspy.Webui.Platform.{Platform}
use jaspy.Webui.Text.{join}
pub mod Calls

-- What `fetch` resolves to. The body of an error is `none` if it is no JSON, and else has the text of
-- its `error` if it has one.
pub record Response : Type 0 where
  pub ok : Bool
  pub status : ℕ
  pub status_text : String
  pub error_body : Option (Option String)
  pub text : String

-- The end of a request: a value (`none` for an empty answer), the message of the error, or the
-- exception of `JSON.parse`.
pub data Answer (A : Type 0) : Type 0 where
  answer : Option A → Answer A
  request_error : String → Answer A
  malformed : Answer A

detail : Option (Option String) → String
detail (some (some e)) = str_append " — " e
detail _ = ""

-- `parse` is `JSON.parse`, `none` where it throws.
unfoldable pub request :
    {A : Type 0} → Platform → (String → Option A) → Option String → String → Response → Answer A
unfolding detail
request platform parse method path response =
    let name : String = elim method [ none ↦ "GET" | some m ↦ m ] in
    let message = join "" (
      name
      ∷ " "
      ∷ path
      ∷ ": "
      ∷ platform.show response.status
      ∷ " "
      ∷ response.status_text
      ∷ detail response.error_body
      ∷ []) in
    let parsed : Answer _ = elim (parse response.text) [
      | none ↦ malformed
      | some a ↦ answer (some a)
    ] in
    if response.ok
    then (if str_eq response.text "" then answer none else parsed)
    else request_error message

unfoldable pub vlan_name_label : List String → Option String
unfolding join
vlan_name_label [] = none
vlan_name_label (name ∷ []) = some name
vlan_name_label (name ∷ next ∷ names) = some (join " / " (name ∷ next ∷ names))

-- Days, hours and minutes of a number of seconds.
unfoldable pub uptime_parts : ℕ → ℕ × ℕ × ℕ
uptime_parts total = (total / 86400, (total % 86400) / 3600, (total % 3600) / 60)

-- `now` and `startup` in seconds; the difference stops at 0.
unfoldable pub format_uptime : Platform → ℕ → ℕ → String
unfolding uptime_parts
format_uptime platform now startup =
    let (d, h, m) = uptime_parts (now - startup) in
    let minutes = str_append (platform.show m) "m" in
    let hours = str_append (platform.show h) (str_append "h " minutes) in
    let days = str_append (platform.show d) (str_append "d " hours) in
    if ltb 0 d then days else if ltb 0 h then hours else minutes

-- The parts make up the seconds but for less than a minute, with hours below 24 and minutes below 60.
pub uptime_parts_bounds :
    (total : ℕ)
    → let (d, h, m) = uptime_parts total in
      (d * 86400 + h * 3600 + m * 60 ≤ total)
      × (total < d * 86400 + h * 3600 + m * 60 + 60)
      × (h < 24)
      × (m < 60)
unfolding uptime_parts
uptime_parts_bounds total = (omega arith, omega arith, omega arith, omega arith)
