-- ===== src/Webui/LiveLog/Tail.antt =====
-- nexus/webui/src/components/LiveLog.tsx: the log as the end of what came.
use jaspy.Prelude.{
  ℕ, suc, zero, ◌-◌, ◌≤◌, none, some, List, [], ◌∷◌, ◌++◌, length, length-append, ◌≡◌, refl, arith,
  ap, sym, ◌∙◌, dec_lt,
}
use jaspy.Webui.LiveLog.{
  max_lines, LiveLogLine, drop, slice_last, LogEvent, open_log, frame, log_after,
}

-- All lines that came since the last connection.
unfoldable pub since_open : List LogEvent → List LiveLogLine → List LiveLogLine
since_open [] all = all
since_open (open_log ∷ es) all = since_open es []
since_open (frame none ∷ es) all = since_open es all
since_open (frame (some entry) ∷ es) all = since_open es (all ++ (entry ∷ []))

module _ {A : Type 0} where
  drop-append : (n : ℕ) (xs ys : List A) → n ≤ length xs → drop n (xs ++ ys) ≡ drop n xs ++ ys
  drop-append zero xs ys h = refl
  drop-append (suc n) [] ys h = absurd (omega (arith, h))
  drop-append (suc n) (x ∷ xs) ys h = drop-append n xs ys (omega (arith, h))

  drop_one : (n : ℕ) (xs : List A) → drop 1 (drop n xs) ≡ drop (suc n) xs
  drop_one zero xs = refl
  drop_one (suc n) [] = refl
  drop_one (suc n) (x ∷ xs) = drop_one n xs

  length-drop : (n : ℕ) (xs : List A) → length (drop n xs) ≡ length xs - n
  length-drop zero xs = omega arith
  length-drop (suc n) [] = omega arith
  length-drop (suc n) (x ∷ xs) = omega (arith, length-drop n xs)

  -- One more element, before or after the first cut.
  slice_last-append :
      (n : ℕ) (xs : List A) (x : A)
      → slice_last n (slice_last n xs ++ (x ∷ [])) ≡ slice_last n (xs ++ (x ∷ []))
  unfolding slice_last
  slice_last-append n xs x = elim (dec_lt (length xs) n) [
    | yes short ↦ let none_cut : length xs - n ≡ 0 = omega (arith, short) in rw none_cut refl
    | no long ↦
        let k = length xs - n in
        let size : length (drop k xs ++ (x ∷ [])) - n ≡ 1 =
          omega (arith, long, length-append (drop k xs) (x ∷ []), length-drop k xs) in
        let total : suc k ≡ length (xs ++ (x ∷ [])) - n =
          omega (arith, long, length-append xs (x ∷ [])) in
        let within : k ≤ length xs = omega arith in
        ap (λ i. drop i (drop k xs ++ (x ∷ []))) size
        ∙ ap (drop 1) (sym (drop-append k xs (x ∷ []) within))
        ∙ drop_one k (xs ++ (x ∷ []))
        ∙ ap (λ i. drop i (xs ++ (x ∷ []))) total
  ]

slice_last_nil : [] ≡ slice_last {A = LiveLogLine} max_lines []
unfolding slice_last
slice_last_nil = refl

-- After any events, the log shows the last thousand lines that came since the last connection.
log_after_lem :
    (es : List LogEvent) (lines everything : List LiveLogLine)
    → lines ≡ slice_last max_lines everything
    → log_after es lines ≡ slice_last max_lines (since_open es everything)
unfolding log_after since_open
log_after_lem [] lines everything h = h
log_after_lem (open_log ∷ es) lines everything h = log_after_lem es [] [] slice_last_nil
log_after_lem (frame none ∷ es) lines everything h = log_after_lem es lines everything h
log_after_lem (frame (some entry) ∷ es) lines everything h =
    log_after_lem es (slice_last max_lines (lines ++ (entry ∷ []))) (everything ++ (entry ∷ [])) (
      ap (λ ls. slice_last max_lines (ls ++ (entry ∷ []))) h
      ∙ slice_last-append max_lines everything entry)

length-slice_last : {A : Type 0} (n : ℕ) (xs : List A) → length (slice_last n xs) ≤ n
unfolding slice_last
length-slice_last n xs = omega (arith, length-drop (length xs - n) xs)

-- From an empty log, after any events, the log shows the last thousand of the lines that came since
-- the last connection, and so no more than a thousand.
pub log_after_tail :
    (es : List LogEvent)
    → (log_after es [] ≡ slice_last max_lines (since_open es []))
      × (length (log_after es []) ≤ max_lines)
log_after_tail es =
    let same = log_after_lem es [] [] slice_last_nil in
    (same, omega (arith, ap (λ ls. length ls) same, length-slice_last max_lines (since_open es [])))
