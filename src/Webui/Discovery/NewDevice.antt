-- ===== src/Webui/Discovery/NewDevice.antt =====
-- nexus/webui/src/pages/Discovery.tsx: the name and the domain of a device that is added.
use Prim.Native.Char.{Char, code}
use text.Mathlib.TextEquality.{Char-path}
use jaspy.Prelude.{
  false, ◌||◌, String, some, str_eq, str_append, ◌==◌, ◌≡◌, ◌≢◌, arith, ap, sym, ◌∙◌, Bool-cases,
  Option-cases, inl, inr, eq_iff, subst,
}
use jaspy.Webui.Platform.{Platform}
use jaspy.Webui.Text.Split.{has_char, append_nil, append_cons}
use jaspy.Webui.Discovery.{DeviceUpdate, cut, new_device_body}

-- A cut is at the first place where the character stands.
pub record IsCut (d : Char) (s before after : String) : Type 0 where
  pub whole : str_append before (String.◌∷◌ d after) ≡ s
  pub first : has_char d before ≡ false

cut-IsCut :
    (d : Char) (s before after : String) → cut d s ≡ some (before, after) → IsCut d s before after
unfolding cut has_char
cut-IsCut d String.[] before after h = ground (arith, h)
cut-IsCut d (String.◌∷◌ c s) before after h = elim (Bool-cases (code c == code d)) [
  | inl e ↦
      let same : c ≡ d = Char-path c d (ground (arith, e)) in
      let hb : before ≡ String.[] = ground (arith, e, h) in
      let ha : after ≡ s = ground (arith, e, h) in
      record {
        whole =
            ap (λ b. str_append b (String.◌∷◌ d after)) hb
            ∙ append_nil (String.◌∷◌ d after)
            ∙ ap (λ t. String.◌∷◌ d t) ha
            ∙ ap (λ x. String.◌∷◌ x s) (sym same);
        first = ap (has_char d) hb;
      }
  | inr e ↦ elim (Option-cases (cut d s)) [
    | inl missing ↦ ground (arith, e, missing, h)
    | inr ((b, a), found) ↦
        let rest = cut-IsCut d s b a found in
        let hb : before ≡ String.◌∷◌ c b = ground (arith, e, found, h) in
        let ha : after ≡ a = ground (arith, e, found, h) in
        record {
          whole =
              ap (λ x. str_append x (String.◌∷◌ d after)) hb
              ∙ append_cons c b (String.◌∷◌ d after)
              ∙ ap (λ t. String.◌∷◌ c (str_append b (String.◌∷◌ d t))) ha
              ∙ ap (λ t. String.◌∷◌ c t) rest.whole;
          first = ap (has_char d) hb ∙ ground (arith, e, rest.first);
        }
  ]
]

-- Where the form gives a body, its name and its domain, both not empty, are what stands before and
-- after the first dot of the trimmed text.
pub new_device_body_parts :
    (platform : Platform) (fqdn community : String) (body : DeviceUpdate)
    → new_device_body platform fqdn community ≡ some body
    → IsCut "." (platform.trim fqdn) body.name body.dns_domain
      × (body.name ≢ "")
      × (body.dns_domain ≢ "")
unfolding new_device_body
new_device_body_parts platform fqdn community body h =
    elim (Option-cases (cut "." (platform.trim fqdn))) [
      | inl missing ↦ ground (arith, missing, h)
      | inr ((b, a), found) ↦ elim (Bool-cases (str_eq b "" || str_eq a "")) [
        | inl blank ↦ ground (arith, found, blank, h)
        | inr full ↦
            let hb : b ≡ body.name = ground (arith, found, full, h) in
            let ha : a ≡ body.dns_domain = ground (arith, found, full, h) in
            (
              subst (λ x. IsCut "." (platform.trim fqdn) x body.dns_domain) hb
                  (subst (IsCut "." (platform.trim fqdn) b) ha
                    (cut-IsCut "." (platform.trim fqdn) b a found)),
              ground (arith, hb, full, eq_iff b ""),
              ground (arith, ha, full, eq_iff a ""),
            )
      ]
    ]
