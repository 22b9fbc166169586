-- ===== src/Webui/DeviceDetail/Units.antt =====
-- nexus/webui/src/pages/DeviceDetail.tsx: volumes and rates in their units. The quotients are exact
-- here; in the code each is a double, which rounds those of a rate.
use jaspy.Prelude.{ℕ, ◌*◌, String, List, [], ◌∷◌, if◌then◌else◌, str_append, leb}
use jaspy.Webui.Platform.{Platform}

-- The loop at a unit, with those above it: the divisor so far is `scale`, and `amount / scale` is `v`.
unfoldable pub unit_of : ℕ → ℕ → ℕ → String → List String → ℕ × String
unit_of base amount scale u [] = (scale, u)
unit_of base amount scale u (next ∷ above) =
    let more = unit_of base amount (scale * base) next above in
    if leb (base * scale) amount then more else (scale, u)

module _ (platform : Platform) where
  -- A whole number of the smallest unit, two decimals of the others.
  quantity : ℕ → ℕ × String → String
  quantity amount (scale, u) =
      let number : String =
        if leb scale 1 then platform.show amount else platform.to_fixed amount scale in
      str_append number (str_append " " u)

  unfoldable pub format_bytes : ℕ → String
  unfolding unit_of quantity
  format_bytes bytes =
      quantity bytes (unit_of 1024 bytes 1 "B" ("KiB" ∷ "MiB" ∷ "GiB" ∷ "TiB" ∷ "PiB" ∷ []))

  unfoldable pub format_bitrate : ℕ → String
  unfolding unit_of quantity
  format_bitrate bps =
      quantity bps (unit_of 1000 bps 1 "bps" ("kbps" ∷ "Mbps" ∷ "Gbps" ∷ "Tbps" ∷ []))
