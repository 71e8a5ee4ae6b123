-- ===== src/Grpc/Calls.antt =====
-- Which calls of the input stream are open, after any history.
use android_appliance.Base.{
  ℕ, ◌≡◌, ◌⊎◌, refl, inl, inr, Option, none, some, Bool, true, false, List, [], ◌∷◌, ◌==◌,
  if◌then◌else◌, arith, ap, subst, Bool-cases,
}
use android_appliance.Grpc.Stream.{
  Writer, idle, writing, Input, Result, connection_error, new_input, member, cancel, is_current,
  open_call, attempt_on, attempt, write, write_done, drop_call, failed_on, write_failed, cancelled,
  close, call_ended, Event, writes, writes_done, writes_failed, cancels, closes, ends, is_idle,
  step, run,
}

-- The only call that can be open is the current one.
abbrev pub OnlyCurrent : Option ℕ → List ℕ → Type 0
OnlyCurrent none live = live ≡ []
OnlyCurrent (some c) live = (live ≡ []) ⊎ (live ≡ c ∷ [])

-- The invariant: nothing but the current call is open, and after close there is none.
record Inv (s : Input) : Type 0 where
  only : OnlyCurrent s.current s.live
  ended : (s.closed ≡ false) ⊎ (s.current ≡ none)

cancel-OnlyCurrent :
    (c : ℕ) (o : Option ℕ) (live : List ℕ) → OnlyCurrent o live → OnlyCurrent o (cancel c live)
cancel-OnlyCurrent c none live h = rw h refl
cancel-OnlyCurrent c (some d) live (inl e) = inl (rw e refl)
cancel-OnlyCurrent c (some d) live (inr e) = elim (Bool-cases (d == c)) [
  | inl k ↦ inl (rw (e, k) refl)
  | inr k ↦ inr (rw (e, k) refl)
]

cancelled-OnlyCurrent : (o : Option ℕ) (live : List ℕ) → OnlyCurrent o live → cancelled o live ≡ []
cancelled-OnlyCurrent none live h = h
cancelled-OnlyCurrent (some d) live (inl e) = rw e refl
cancelled-OnlyCurrent (some d) live (inr e) = ground arith

drop-OnlyCurrent :
    (c : ℕ) (o : Option ℕ) (live : List ℕ)
    → OnlyCurrent o live
    → OnlyCurrent (if is_current o c then none else o) (cancel c live)
drop-OnlyCurrent c none live h = rw h refl
drop-OnlyCurrent c (some d) live (inl e) = elim (Bool-cases (d == c)) [
  | inl k ↦ rw (e, k) refl
  | inr k ↦ rw (e, k) (inl refl)
]
drop-OnlyCurrent c (some d) live (inr e) = elim (Bool-cases (d == c)) [
  | inl k ↦ rw (e, k) refl
  | inr k ↦ rw (e, k) (inr refl)
]

drop-none : (c : ℕ) (o : Option ℕ) → o ≡ none → (if is_current o c then none else o) ≡ none
drop-none c none h = refl
drop-none c (some d) h = ground arith

drop_call-Inv : (c : ℕ) (s : Input) → Inv s → Inv (drop_call c s)
drop_call-Inv c s i = record {
  only = drop-OnlyCurrent c s.current s.live i.only;
  ended = elim i.ended [ inl e ↦ inl e | inr e ↦ inr (drop-none c s.current e) ];
}

open_call-Inv :
    (again : Bool) (s : Input) → s.live ≡ [] → s.closed ≡ false → Inv (open_call again s)
open_call-Inv again s e f = record { only = inr (ap (λ l. s.next ∷ l) e); ended = inl f }

absent-live :
    (c : ℕ) (live : List ℕ) → OnlyCurrent (some c) live → member c live ≡ false → live ≡ []
absent-live c live (inl e) h = e
absent-live c live (inr e) h =
    let there : member c (c ∷ []) ≡ false = subst (λ l. member c l ≡ false) e h in ground arith

attempt_on-Inv :
    (again : Bool) (o : Option ℕ) (s : Input)
    → s.current ≡ o
    → s.closed ≡ false
    → Inv s
    → Inv (attempt_on again o s)
attempt_on-Inv again none s e f i =
    open_call-Inv again s (subst (λ q. OnlyCurrent q s.live) e i.only) f
attempt_on-Inv again (some c) s e f i = elim (Bool-cases (member c s.live)) [
  | inl m ↦ rw m (record { only = i.only; ended = i.ended })
  | inr m ↦ rw m (
      open_call-Inv again s (absent-live c s.live (subst (λ q. OnlyCurrent q s.live) e i.only) m) f)
]

-- What either outcome of a test has, the result has.
pick :
    (P : Input → Type 0) (b : Bool) (t u : Input × Result)
    → (b ≡ true → P t.0)
    → (b ≡ false → P u.0)
    → P (if b then t else u).0
pick P true t u h k = h refl
pick P false t u h k = k refl

attempt-Inv : (again : Bool) (s : Input) → Inv s → Inv (attempt again s).0
unfolding attempt
attempt-Inv again s i =
    pick Inv s.closed _ _ (λ e. record { only = i.only; ended = i.ended })
      (λ e. attempt_on-Inv again s.current s refl e i)

failed_on-Inv : (w : Writer) (s : Input) → Inv s → Inv (failed_on w s).0
failed_on-Inv idle s i = i
failed_on-Inv (writing c true) s i =
    let j = drop_call-Inv c s i in record { only = j.only; ended = j.ended }
failed_on-Inv (writing c false) s i = attempt-Inv true (drop_call c s) (drop_call-Inv c s i)

if-Inv : (b : Bool) (s t : Input) → Inv s → Inv t → Inv (if b then s else t)
if-Inv true s t i j = i
if-Inv false s t i j = j

close-Inv : (s : Input) → Inv s → Inv (close s)
unfolding close
close-Inv s i = record { only = cancelled-OnlyCurrent s.current s.live i.only; ended = inr refl }

step-Inv : (e : Event) (s : Input) → Inv s → Inv (step e s)
unfolding step write write_done write_failed close call_ended
step-Inv writes s i = if-Inv (is_idle s.writer) (attempt false s).0 s (attempt-Inv false s i) i
step-Inv writes_done s i =
    if-Inv (is_idle s.writer) s _ i (record { only = i.only; ended = i.ended })
step-Inv writes_failed s i = if-Inv (is_idle s.writer) s _ i (failed_on-Inv s.writer s i)
step-Inv cancels s i = record { only = i.only; ended = i.ended }
step-Inv closes s i = close-Inv s i
step-Inv (ends c) s i = record {
  only = cancel-OnlyCurrent c s.current s.live i.only;
  ended = i.ended;
}

run-Inv : (es : List Event) (s : Input) → Inv s → Inv (run es s)
unfolding run
run-Inv [] s i = i
run-Inv (e ∷ es) s i = run-Inv es (step e s) (step-Inv e s i)

abbrev IsClosed : Input → Type 0
IsClosed s = s.closed ≡ true

attempt-IsClosed : (again : Bool) (s : Input) → IsClosed s → IsClosed (attempt again s).0
unfolding attempt
attempt-IsClosed again s h = pick IsClosed s.closed _ _ (λ e. h) (λ e. ground arith)

failed_on-IsClosed : (w : Writer) (s : Input) → IsClosed s → IsClosed (failed_on w s).0
failed_on-IsClosed idle s h = h
failed_on-IsClosed (writing c true) s h = h
failed_on-IsClosed (writing c false) s h = attempt-IsClosed true (drop_call c s) h

if-IsClosed : (b : Bool) (s t : Input) → IsClosed s → IsClosed t → IsClosed (if b then s else t)
if-IsClosed true s t h k = h
if-IsClosed false s t h k = k

close-IsClosed : (s : Input) → IsClosed (close s)
unfolding close
close-IsClosed s = refl

step-IsClosed : (e : Event) (s : Input) → IsClosed s → IsClosed (step e s)
unfolding step write write_done write_failed close call_ended
step-IsClosed writes s h =
    if-IsClosed (is_idle s.writer) (attempt false s).0 s (attempt-IsClosed false s h) h
step-IsClosed writes_done s h = if-IsClosed (is_idle s.writer) s (record s { writer = idle }) h h
step-IsClosed writes_failed s h =
    if-IsClosed (is_idle s.writer) s _ h (failed_on-IsClosed s.writer s h)
step-IsClosed cancels s h = h
step-IsClosed closes s h = close-IsClosed s
step-IsClosed (ends c) s h = h

run-IsClosed : (es : List Event) (s : Input) → IsClosed s → IsClosed (run es s)
unfolding run
run-IsClosed [] s h = h
run-IsClosed (e ∷ es) s h = run-IsClosed es (step e s) (step-IsClosed e s h)

closed-live : (s : Input) → Inv s → IsClosed s → s.live ≡ []
closed-live s i h = elim i.ended [
  | inl e ↦ ground arith
  | inr e ↦ subst (λ o. OnlyCurrent o s.live) e i.only
]

write-IsClosed : (s : Input) → IsClosed s → (write s).1 ≡ connection_error
unfolding write attempt
write-IsClosed s h = simp (h)

new-Inv : Inv new_input
new-Inv = record { only = refl; ended = inl refl }

-- Whatever happens, the emulator has at most one open call for input, which is the current one; and
-- once the stream is closed there is none, and a write fails with a connection error.
pub calls_end :
    (before after : List Event)
    → let s = run before new_input in
      let t = run after (close s) in
      OnlyCurrent s.current s.live × (t.live ≡ []) × ((write t).1 ≡ connection_error)
calls_end before after =
    let i = run-Inv before new_input new-Inv in
    let s = run before new_input in
    let c = run-IsClosed after (close s) (close-IsClosed s) in
    (i.only, closed-live _ (run-Inv after (close s) (close-Inv s i)) c, write-IsClosed _ c)
