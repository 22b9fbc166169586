-- ===== src/Webui/Parts.antt =====
-- nexus/webui/src/pages: what a cell shows, as its parts one after the other.
use jaspy.Prelude.{String, Option, none, some, List, [], if◌then◌else◌, str_eq, str_append}
use jaspy.Webui.IssueTypes.{Tone}
use jaspy.Webui.Badges.{Badge}
use jaspy.Webui.Client.Calls.{Encoding}

-- A part of what is shown. An anchor has its target and its text; a chip opens a related issue.
pub data Part : Type 0 where
  plain mono muted : String → Part
  anchor : String → String → Part
  badge_part : Badge → Part
  toned : Tone → String → Part
  chip : String → String → Part

-- A text that is given and not empty.
abbrev pub if_given : Option String → (String → List Part) → List Part
if_given none parts = []
if_given (some s) parts = let shown = parts s in if str_eq s "" then [] else shown

-- `/devices/${encodeURIComponent(fqdn)}`
abbrev pub device_link : Encoding → String → String → Part
device_link encoding fqdn shown = anchor (str_append "/devices/" (encoding.encode fqdn)) shown
