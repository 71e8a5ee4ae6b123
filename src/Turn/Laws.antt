-- ===== src/Turn/Laws.antt =====
-- What the TURN relay guarantees.
use android_appliance.Base.{
  ℕ, suc, ◌+◌, ◌≤◌, ◌≡◌, refl, Option, none, some, Bool, true, false, List, [], ◌∷◌, ◌++◌, length,
  arith, All, length-append, length-keep_if-le, keep_if, Bool-cases, inl, inr,
}
use android_appliance.Base.Text.{Text, contains}
use android_appliance.Turn.Relay.{
  new_user, renew_user, is_valid_after, before_colon, is_empty, TurnLog, Logged, line,
  more_suppressed, log_line, is_recent, next_delay, delays,
}

colon : (s t : Text) → contains b':' s ≡ false → before_colon (s ++ b':' ∷ t) ≡ s
colon [] t h = refl
colon (c ∷ s) t h = ground (arith, colon s t)

append_full : (s t : Text) → is_empty s ≡ false → is_empty (s ++ t) ≡ false
append_full [] t h = cc
append_full (c ∷ s) t h = refl

new_user_is_valid :
    (str : ℕ → Text) (int : Text → ℕ) (is_digits : Text → Bool) (token : Text) (now : ℕ)
    → let expiry = str (now + 86400) in
      int expiry ≡ now + 86400
      → is_digits expiry ≡ true
      → contains b':' expiry ≡ false
      → is_empty expiry ≡ false
      → is_valid_after str int is_digits now (new_user str int is_digits token now) ≡ true
unfolding new_user
new_user_is_valid str int is_digits token now i d c e =
    let expiry = str (now + 86400) in
    rw (colon expiry token c, i, d) (ground (arith, append_full expiry (b':' ∷ token) e))

renewed_is_valid :
    (str : ℕ → Text) (int : Text → ℕ) (is_digits : Text → Bool) (token : Text) (now : ℕ)
    (user : Option Text)
    → let expiry = str (now + 86400) in
      int expiry ≡ now + 86400
      → is_digits expiry ≡ true
      → contains b':' expiry ≡ false
      → is_empty expiry ≡ false
      → is_valid_after str int is_digits now (renew_user str int is_digits token now user) ≡ true
unfolding renew_user
renewed_is_valid str int is_digits token now none i d c e =
    new_user_is_valid str int is_digits token now i d c e
renewed_is_valid str int is_digits token now (some old) i d c e =
    elim (Bool-cases (is_valid_after str int is_digits now old)) [
      | inl h ↦ rw h h
      | inr h ↦ rw h (new_user_is_valid str int is_digits token now i d c e)
    ]

-- The user name that a session gets, for its old one or for none, is good for more than an hour, and
-- it keeps that name while it is; where `str` of the new expiry is digits that `int` reads back.
renew_user_valid :
    (str : ℕ → Text) (int : Text → ℕ) (is_digits : Text → Bool) (token : Text) (now : ℕ)
    (user : Option Text)
    → let expiry = str (now + 86400) in
      int expiry ≡ now + 86400
      → is_digits expiry ≡ true
      → contains b':' expiry ≡ false
      → is_empty expiry ≡ false
      → let name = renew_user str int is_digits token now user in
        (is_valid_after str int is_digits now name ≡ true)
        × (renew_user str int is_digits token now (some name) ≡ name)
unfolding renew_user
renew_user_valid str int is_digits token now user i d c e =
    let valid = renewed_is_valid str int is_digits token now user i d c e in (valid, rw valid refl)

-- How many lines a log has, and how many it reports as suppressed.
abbrev pub count_logged : List Logged → ℕ
count_logged [] = 0
count_logged (line t ∷ ls) = suc (count_logged ls)
count_logged (more_suppressed n ∷ ls) = n + count_logged ls

-- The output of turnserver: lines with their times.
pub log_all : List (ℕ × Text) → TurnLog → TurnLog × List Logged
log_all [] s = (s, [])
log_all ((now, text) ∷ ls) s =
    let (t, out) = log_line now text s in let (u, more) = log_all ls t in (u, out ++ more)

count_logged-append :
    (xs ys : List Logged) → count_logged (xs ++ ys) ≡ count_logged xs + count_logged ys
count_logged-append [] ys = omega arith
count_logged-append (line t ∷ xs) ys = omega (arith, count_logged-append xs ys)
count_logged-append (more_suppressed n ∷ xs) ys = omega (arith, count_logged-append xs ys)

log_line_counts :
    (now : ℕ) (text : Text) (s : TurnLog)
    → length s.lines ≤ 100
    → let (t, out) = log_line now text s in
      (count_logged out + t.suppressed ≡ suc s.suppressed) × (length t.lines ≤ 100)
unfolding log_line
log_line_counts now text s h = ground (
  arith,
  length-append (keep_if (is_recent now) s.lines) (now ∷ []),
  length-keep_if-le (is_recent now) s.lines,
)

-- Every line of turnserver is logged or counted as suppressed, and the counts that the log reports
-- lose none; the window holds at most 100 lines.
log_counts :
    (ls : List (ℕ × Text)) (s : TurnLog)
    → length s.lines ≤ 100
    → let (t, out) = log_all ls s in
      (count_logged out + t.suppressed ≡ length ls + s.suppressed) × (length t.lines ≤ 100)
unfolding log_all
log_counts [] s h = (omega arith, h)
log_counts ((now, text) ∷ ls) s h =
    let (t, out) = log_line now text s in
    ground (
      arith,
      log_line_counts now text s h,
      log_counts ls (log_line now text s).0,
      count_logged-append (log_line now text s).1 (log_all ls (log_line now text s).0).1,
    )

-- From 1 to 30 seconds.
abbrev pub IsDelay : ℕ → Type 0
IsDelay d = (1000000 ≤ d) × (d ≤ 30000000)

-- Whatever the lengths of the runs of turnserver are, the next one is started after 1 to 30 seconds,
-- from any delay of half a second or more.
delays_bounded : (d : ℕ) (rs : List ℕ) → 500000 ≤ d → All IsDelay (delays d rs)
unfolding delays
delays_bounded d [] h = tt
delays_bounded d (r ∷ rs) h = ground (arith, delays_bounded (next_delay r d) rs)
