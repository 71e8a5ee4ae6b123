-- ===== src/Auth/Laws.antt =====
-- What Auth guarantees.
use android_appliance.Base.{
  ℕ, suc, ◌+◌, ◌-◌, ◌≤◌, ◌<◌, ◌≡◌, ◌↔◌, refl, inl, inr, none, some, true, false, List, [], ◌∷◌,
  ◌++◌, arith, leb, if◌then◌else◌, length, all, append_assoc, length-drop, Bool-cases, subst,
}
use android_appliance.Base.Text.{
  Text, contains, is_digit, text_eq, text_eq_refl, text_eq_sound, text_eq_congr, text_eq_comm,
}
use android_appliance.Auth.State.{
  Auth, Links, Failures, rotate, live_links, put_link, find_link, pop_link, login_link,
  use_login_code, failures_of, put_failures, drop_old, blocked, append_failure, failed, new_session,
  check_session, before_dot, after_dot, is_empty, session_ttl, link_ttl,
}

-- Codes stand once in the table.
abbrev pub IsUnique : Links → Type 0
IsUnique [] = Unit {0}
IsUnique ((c, t) ∷ ls) = (find_link c ls ≡ none) × IsUnique ls

find_link-pop : (c : Text) (ls : Links) → IsUnique ls → find_link c (pop_link c ls) ≡ none
find_link-pop c [] u = refl
find_link-pop c ((d, t) ∷ ls) u = elim (Bool-cases (text_eq d c)) [
  | inl e ↦ rw e (subst (λ x. find_link x ls ≡ none) (text_eq_sound d c e) u.0)
  | inr e ↦ rw (e, e) (find_link-pop c ls u.1)
]

find_link-pop_none :
    (c d : Text) (ls : Links) → find_link c ls ≡ none → find_link c (pop_link d ls) ≡ none
find_link-pop_none c d [] h = refl
find_link-pop_none c d ((e, t) ∷ ls) h = ground (arith, find_link-pop_none c d ls)

pop_link-IsUnique : (c : Text) (ls : Links) → IsUnique ls → IsUnique (pop_link c ls)
pop_link-IsUnique c [] u = tt
pop_link-IsUnique c ((d, t) ∷ ls) u =
    ground (arith, pop_link-IsUnique c ls u.1, find_link-pop_none d c ls)

find_link-live_none :
    (c : Text) (now : ℕ) (ls : Links)
    → find_link c ls ≡ none
    → find_link c (live_links now ls) ≡ none
find_link-live_none c now [] h = refl
find_link-live_none c now ((e, t) ∷ ls) h = ground (arith, find_link-live_none c now ls)

live_links-IsUnique : (now : ℕ) (ls : Links) → IsUnique ls → IsUnique (live_links now ls)
live_links-IsUnique now [] u = tt
live_links-IsUnique now ((d, t) ∷ ls) u =
    ground (arith, live_links-IsUnique now ls u.1, find_link-live_none d now ls)

find_link-put :
    (c d : Text) (t : ℕ) (ls : Links)
    → find_link c (put_link d t ls) ≡ (if text_eq d c then some t else find_link c ls)
find_link-put c d t [] = ground arith
find_link-put c d t ((x, u) ∷ ls) = ground (
  arith,
  find_link-put c d t ls,
  text_eq_congr x d c,
  text_eq_congr d c x,
  text_eq_comm x d,
  text_eq_comm x c,
)

put_link-IsUnique : (d : Text) (t : ℕ) (ls : Links) → IsUnique ls → IsUnique (put_link d t ls)
put_link-IsUnique d t [] u = (refl, tt)
put_link-IsUnique d t ((x, y) ∷ ls) u =
    ground (arith, put_link-IsUnique d t ls u.1, find_link-put x d t ls, text_eq_comm x d)

-- The calls of Auth, with what the clock and `secrets` return.
pub data Call : Type 0 where
  links : ℕ → Text → Call
  uses : ℕ → Text → Call
  rotates : Text → Text → Call
  fails : ℕ → Text → Call
  checks : ℕ → Text → Call

unfoldable pub call : Call → Auth → Auth
call (links now code) a = login_link now code a
call (uses now code) a = (use_login_code now code a).0
call (rotates t k) a = rotate t k a
call (fails now c) a = failed now c a
call (checks now c) a = (blocked now c a).0

pub call_all : List Call → Auth → Auth
call_all [] a = a
call_all (c ∷ cs) a = call_all cs (call c a)

-- The calls that make no link with the code.
abbrev pub NotLinked : Text → List Call → Type 0
NotLinked code [] = Unit {0}
NotLinked code (links now d ∷ cs) = (text_eq d code ≡ false) × NotLinked code cs
NotLinked code (_ ∷ cs) = NotLinked code cs

call-IsUnique : (c : Call) (a : Auth) → IsUnique a.links → IsUnique (call c a).links
unfolding call login_link use_login_code rotate failed blocked
call-IsUnique (links now code) a u = put_link-IsUnique code _ _ (live_links-IsUnique now a.links u)
call-IsUnique (uses now code) a u = pop_link-IsUnique code a.links u
call-IsUnique (rotates t k) a u = tt
call-IsUnique (fails now c) a u = u
call-IsUnique (checks now c) a u = ground arith

call_all-IsUnique : (cs : List Call) (a : Auth) → IsUnique a.links → IsUnique (call_all cs a).links
unfolding call_all
call_all-IsUnique [] a u = u
call_all-IsUnique (c ∷ cs) a u = call_all-IsUnique cs (call c a) (call-IsUnique c a u)

call_all-no_link :
    (code : Text) (cs : List Call) (a : Auth)
    → NotLinked code cs
    → find_link code a.links ≡ none
    → find_link code (call_all cs a).links ≡ none
unfolding call_all call login_link use_login_code rotate failed blocked
call_all-no_link code [] a n h = h
call_all-no_link code (links now d ∷ cs) a n h = call_all-no_link code cs _ n.1 (
    ground (
      arith,
      find_link-put code d (now + link_ttl) (live_links now a.links),
      find_link-live_none code now a.links h,
      n.0,
    ))
call_all-no_link code (uses now d ∷ cs) a n h =
    call_all-no_link code cs _ n (find_link-pop_none code d a.links h)
call_all-no_link code (rotates t k ∷ cs) a n h = call_all-no_link code cs _ n refl
call_all-no_link code (fails now c ∷ cs) a n h = call_all-no_link code cs _ n h
call_all-no_link code (checks now c ∷ cs) a n h = call_all-no_link code cs _ n (ground arith)

-- A login code is accepted at most once: after it was used, and after a rotation of the token, no
-- later use of it is accepted, whatever calls come between that make no new link with it.
pub code_works_once :
    (code : Text) (cs ds : List Call) (a : Auth) (now later : ℕ) (t k : Text)
    → IsUnique a.links
    → NotLinked code ds
    → let b = call_all cs a in
      ((use_login_code later code (call_all ds (use_login_code now code b).0)).1 ≡ false)
      × ((use_login_code later code (call_all ds (rotate t k b))).1 ≡ false)
unfolding use_login_code rotate
code_works_once code cs ds a now later t k u n =
    let b = call_all cs a in
    (
      rw (
          call_all-no_link code ds (use_login_code now code b).0 n
            (find_link-pop code b.links (call_all-IsUnique cs a u))),
      rw (call_all-no_link code ds (rotate t k b) n refl),
    )

-- A fresh login link is accepted exactly within its 120 seconds.
link_expires :
    (now later : ℕ) (code : Text) (a : Auth)
    → ((use_login_code later code (login_link now code a)).1 ≡ true) ↔ (later < now + 120000000)
unfolding use_login_code login_link
link_expires now later code a =
    rw (find_link-put code code (now + link_ttl) (live_links now a.links), text_eq_refl code)
      (ground arith)

failures-put : (c : Text) (v : List ℕ) (fs : Failures) → failures_of c (put_failures c v fs) ≡ v
failures-put c v [] = rw (text_eq_refl c)
failures-put c v ((d, u) ∷ fs) = ground (arith, failures-put c v fs)

length-put_failures-le :
    (c : Text) (v : List ℕ) (fs : Failures) → length (put_failures c v fs) ≤ suc (length fs)
length-put_failures-le c v [] = omega arith
length-put_failures-le c v ((d, u) ∷ fs) = ground (arith, length-put_failures-le c v fs)

length-append_failure : (t : ℕ) (ts : List ℕ) → length (append_failure t ts) ≤ 5
length-append_failure t ts = omega (arith, length-drop (length (ts ++ t ∷ []) - 5) (ts ++ t ∷ []))

-- A failed login is the client's newest of at most five.
failed-failures :
    (now : ℕ) (c : Text) (a : Auth)
    → length a.failures ≤ 10000
    → failures_of c (failed now c a).failures ≡ append_failure now (failures_of c a.failures)
unfolding failed
failed-failures now c a h =
    ground (arith, failures-put c (append_failure now (failures_of c a.failures)) a.failures)

-- Five failed logins of a client.
abbrev pub fail_five : Text → ℕ → ℕ → ℕ → ℕ → ℕ → Auth → Auth
fail_five c t1 t2 t3 t4 t5 a = failed t5 c (failed t4 c (failed t3 c (failed t2 c (failed t1 c a))))

length-failed-le :
    (now : ℕ) (c : Text) (a : Auth)
    → length a.failures ≤ 10000
    → length (failed now c a).failures ≤ suc (length a.failures)
unfolding failed
length-failed-le now c a h =
    ground
      (arith, length-put_failures-le c (append_failure now (failures_of c a.failures)) a.failures)

fail_one :
    (now : ℕ) (c : Text) (a : Auth) (n : ℕ) (ts : List ℕ)
    → n < 10000
    → (length a.failures ≤ n) × (failures_of c a.failures ≡ ts)
    → (length (failed now c a).failures ≤ suc n)
      × (failures_of c (failed now c a).failures ≡ append_failure now ts)
fail_one now c a n ts m (h, e) =
    (omega (arith, length-failed-le now c a), rw (failed-failures now c a (omega arith), e))

five_in_table :
    (c : Text) (t1 t2 t3 t4 t5 : ℕ) (a : Auth)
    → length a.failures ≤ 9995
    → failures_of c a.failures ≡ []
    → failures_of c (fail_five c t1 t2 t3 t4 t5 a).failures ≡ t1 ∷ t2 ∷ t3 ∷ t4 ∷ t5 ∷ []
five_in_table c t1 t2 t3 t4 t5 a n e =
    let f1 = fail_one t1 c a 9995 [] (omega arith) (n, e) in
    let f2 = fail_one t2 c _ 9996 _ (omega arith) f1 in
    let f3 = fail_one t3 c _ 9997 _ (omega arith) f2 in
    let f4 = fail_one t4 c _ 9998 _ (omega arith) f3 in (fail_one t5 c _ 9999 _ (omega arith) f4).1

blocked_lem :
    (now : ℕ) (c : Text) (a : Auth) (t : ℕ) (ts : List ℕ)
    → failures_of c a.failures ≡ t ∷ ts
    → (blocked now c a).1 ≡ leb 5 (length (drop_old now (t ∷ ts)))
unfolding blocked
blocked_lem now c a t ts e = rw (e, blocked)

-- A client with no failure on record is blocked after five failed logins, one after another,
-- exactly as long as the first of them is at most 60 seconds ago, while the table has room.
pub five_failures_block :
    (c : Text) (t1 t2 t3 t4 t5 now : ℕ) (a : Auth)
    → t1 ≤ t2
    → t2 ≤ t3
    → t3 ≤ t4
    → t4 ≤ t5
    → length a.failures ≤ 9995
    → failures_of c a.failures ≡ []
    → ((blocked now c (fail_five c t1 t2 t3 t4 t5 a)).1 ≡ true) ↔ (now ≤ t1 + 60000000)
five_failures_block c t1 t2 t3 t4 t5 now a p q r s n e =
    rw
      (blocked_lem now c (fail_five c t1 t2 t3 t4 t5 a) t1 (t2 ∷ t3 ∷ t4 ∷ t5 ∷ [])
        (five_in_table c t1 t2 t3 t4 t5 a n e))
      (λ h. ground (arith, h), λ h. ground (arith, h))

dots :
    (s t : Text)
    → contains b'.' s ≡ false
    → (before_dot (s ++ b'.' ∷ t) ≡ s) × (after_dot (s ++ b'.' ∷ t) ≡ t)
dots [] t h = (refl, refl)
dots (c ∷ s) t h = ground (arith, dots s t)

-- A dashboard session that was made at time `made` is accepted exactly until its seven days are
-- over, and by no other session key whose code of the same payload differs; given that `str` of the
-- expiry is 1 to 12 digits that `int` reads back, and that the nonce is not empty and has no dot.
pub session_accepted :
    (mac : Text → Text → Text) (str : ℕ → Text) (int : Text → ℕ) (made now : ℕ) (nonce : Text)
    (a b : Auth)
    → let expiry = str (made + session_ttl) in
      int expiry ≡ made + session_ttl
      → all is_digit expiry ≡ true
      → is_empty expiry ≡ false
      → length expiry ≤ 12
      → contains b'.' expiry ≡ false
      → contains b'.' nonce ≡ false
      → is_empty nonce ≡ false
      → (check_session mac str int now (new_session mac str int made nonce a) b ≡ true) ↔ (
          (now ≤ made + 604800)
          × (text_eq
                (mac a.session_key (expiry ++ b'.' ∷ nonce))
                (mac b.session_key (expiry ++ b'.' ∷ nonce))
              ≡ true))
unfolding check_session new_session
session_accepted mac str int made now nonce a b i d f l x y z =
    let expiry = str (made + session_ttl) in
    let code = mac a.session_key (expiry ++ b'.' ∷ nonce) in
    let outer = dots expiry (nonce ++ b'.' ∷ code) x in
    let inner = dots nonce code y in
    rw
      (
        append_assoc expiry (b'.' ∷ nonce) (b'.' ∷ code),
        outer.0,
        outer.1,
        inner.0,
        inner.1,
        i,
        d,
        f,
        z,
      )
      (λ h. ground (arith, h, l), λ h. ground (arith, h, l))
