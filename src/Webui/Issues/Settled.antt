-- ===== src/Webui/Issues/Settled.antt =====
-- nexus/webui/src/pages/Issues.tsx: the end of the mutations that fan out to the keys of a row or of
-- a selection.
use jaspy.Prelude.{
  ℕ, zero, suc, ◌<◌, ◌≤◌, Bool, true, false, String, Option, none, some, List, [], ◌∷◌, ◌++◌, map,
  length, ◌≡◌, refl, arith, inl, inr, ◌⊎◌,
}
use jaspy.Webui.Issues.{all}
use jaspy.Webui.Issues.Page.{
  Page, Call, ack_issue, invalidate_issues, failed, settle, exit_select, mass_ack,
}

failed_le : (succeeds : String → Bool) (keys : List String) → failed succeeds keys ≤ length keys
unfolding failed
failed_le succeeds [] = omega arith
failed_le succeeds (k ∷ ks) = ground (arith, failed_le succeeds ks)

all-failed :
    (succeeds : String → Bool) (keys : List String)
    → failed succeeds keys ≡ 0
    → all succeeds keys ≡ true
unfolding failed
all-failed succeeds [] h = refl
all-failed succeeds (k ∷ ks) h = ground (arith, h, all-failed succeeds ks)

failed_some :
    (succeeds : String → Bool) (keys : List String) (n : ℕ)
    → failed succeeds keys ≡ suc n
    → all succeeds keys ≡ false
unfolding failed
failed_some succeeds [] n h = ground (arith, h)
failed_some succeeds (k ∷ ks) n h = ground (arith, h, failed_some succeeds ks n)

-- The page after a fan-out that succeeds, and after one that does not.
abbrev pub Succeeded : List Call → Page × Option (ℕ × ℕ) → Type 0
Succeeded sent r =
    (r.1 ≡ none)
    × (r.0.selecting ≡ false)
    × (r.0.selected ≡ [])
    × (r.0.calls ≡ sent ++ (invalidate_issues ∷ []))

abbrev pub Rejected : List Call → ℕ → Page → Page × Option (ℕ × ℕ) → Type 0
Rejected sent total p r =
    (n : ℕ) × (r.1 ≡ some (n, total))
    × (0 < n)
    × (n ≤ total)
    × (r.0.selected ≡ p.selected)
    × (r.0.calls ≡ sent)

-- A mass acknowledgement sends one request for each key; when all succeed it ends without an error,
-- clears the selection and then refreshes the issues, and when some fail the selection stays and
-- the error tells a number above 0 of all keys.
pub mass_ack_settles :
    (succeeds : String → Bool) (keys : List String) (p : Page)
    → let sent = p.calls ++ map (λ k. ack_issue k none) keys in
      ((all succeeds keys ≡ true) × Succeeded sent (mass_ack succeeds keys p))
      ⊎ ((all succeeds keys ≡ false) × Rejected sent (length keys) p (mass_ack succeeds keys p))
unfolding mass_ack settle exit_select
mass_ack_settles succeeds keys p = go (failed succeeds keys) refl
  where
    go :
        (n : ℕ)
        → failed succeeds keys ≡ n
        → let sent = p.calls ++ map (λ k. ack_issue k none) keys in
          ((all succeeds keys ≡ true) × Succeeded sent (mass_ack succeeds keys p))
          ⊎ ((all succeeds keys ≡ false) × Rejected sent (length keys) p (mass_ack succeeds keys p))
    go zero h = inl (all-failed succeeds keys h, rw (h, mass_ack) (refl, refl, refl, refl))
    go (suc n) h =
        let some_failed = failed_some succeeds keys n h in
        let few = failed_le succeeds keys in
        inr (
          some_failed,
          rw (h, mass_ack) (suc n, refl, omega arith, omega (arith, h, few), refl, refl),
        )
