-- ===== src/Weathermap/Util/Hostname.antt =====
-- weathermap/js/util.js: `hostnameFromFQDN`.
use Prim.Native.Char.{Char, code}
use Prim.Native.String.append
use jaspy.Prelude.{Bool, false, ◌||◌, String, ◌≡◌, refl, arith, ◌==◌, str_append}
use jaspy.Weathermap.Util.{hostname_from_fqdn}

unfoldable pub has_dot : String → Bool
has_dot String.[] = false
has_dot (String.◌∷◌ c s) = code c == b'.' || has_dot s

append_nil : (t : String) → str_append String.[] t ≡ t
append_nil t = λ i. append.nil t i

append_cons :
    (c : Char) (s t : String) → str_append (String.◌∷◌ c s) t ≡ String.◌∷◌ c (str_append s t)
append_cons c s t = λ i. append.cons c s t i

-- The host name of a text without a dot is the text, alone or before a dot and a domain.
pub hostname_from_fqdn-label :
    (label domain : String) (dot : Char)
    → has_dot label ≡ false
    → code dot ≡ b'.'
    → (hostname_from_fqdn label ≡ label)
      × (hostname_from_fqdn (str_append label (String.◌∷◌ dot domain)) ≡ label)
unfolding hostname_from_fqdn has_dot
hostname_from_fqdn-label String.[] domain dot h e =
    (refl, rw (append_nil (String.◌∷◌ dot domain)) (ground (arith, e)))
hostname_from_fqdn-label (String.◌∷◌ c s) domain dot h e =
    let other : has_dot s ≡ false = ground (arith, h) in
    let (alone, before) = hostname_from_fqdn-label s domain dot other e in
    rw (append_cons c s (String.◌∷◌ dot domain)) (ground (arith, h, alone, before))
