-- ===== src/Webui/Issues/Detail/Acked.antt =====
-- The hint of a row that is acknowledged in part.
use jaspy.Prelude.{ℕ, ◌≤◌, Bool, not, ◌&&◌, is_some, List, [], ◌∷◌, length, ◌≡◌, refl, ◌==◌, arith}
use jaspy.Webui.IssueTypes.{Issue}
use jaspy.Webui.Issues.{Row, all, any, row_acked}
use jaspy.Webui.Issues.Order.{keep}
use jaspy.Webui.Issues.Detail.Body.{partial_ack_hint}

abbrev is_acked : Issue → Bool
is_acked m = m.acknowledged

abbrev count : List Issue → ℕ
count members = length (keep is_acked members)

count-length : (members : List Issue) → count members ≤ length members
count-length [] = omega arith
count-length (m ∷ members) = ground (arith, count-length members)

any-count : (members : List Issue) → any is_acked members ≡ not (count members == 0)
any-count [] = refl
any-count (m ∷ members) = ground (arith, any-count members)

all-count : (members : List Issue) → all is_acked members ≡ (count members == length members)
all-count [] = refl
all-count (m ∷ members) = ground (arith, all-count members, count-length members)

-- .
pub partial_ack_hint-row_acked :
    (row : Row) → is_some (partial_ack_hint row) ≡ (any is_acked row.members && not (row_acked row))
unfolding partial_ack_hint row_acked
partial_ack_hint-row_acked row =
    rw (any-count row.members, all-count row.members) (ground (arith, count-length row.members))
