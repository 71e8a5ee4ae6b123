-- ===== src/Backend/Traces.antt =====
-- Predicates on the calls of an operation, whatever the device answers.
use android_appliance.Base.{◌≡◌, refl, List, [], ◌∷◌, Bool, true, false, not}
use android_appliance.Backend.Calls.{
  Op, returns, raises, calls, Call, enters, leaves, unlinks, Answer, replied, pictured, done,
  timed_out, broken, refused, Reply, Code, leaving, leased, entered, reply_of, guard, ◌>>=◌,
}

-- What holds of every call that an operation may make.
unfoldable pub AllCalls : {A : Type 0} → (Call → Type 0) → Op A → Type 0
AllCalls P (returns a) = Unit {0}
AllCalls P (raises c) = Unit {0}
AllCalls P (calls c k) = P c × ((a : Answer) → AllCalls P (k a))

module _ (P : Call → Type 0) where
  pub AllCalls-bind :
      {A B : Type 0} (m : Op A) (f : A → Op B)
      → AllCalls P m
      → ((a : A) → AllCalls P (f a))
      → AllCalls P (m >>= f)
  unfolding AllCalls
  AllCalls-bind (returns a) f h g = g a
  AllCalls-bind (raises c) f h g = tt
  AllCalls-bind (calls c k) f h g = (h.0, λ a. AllCalls-bind (k a) f (h.1 a) g)

  pub AllCalls-reply_of : (c : Call) → P c → AllCalls P (reply_of c)
  unfolding AllCalls reply_of
  AllCalls-reply_of c p = (p, answers)
    where
      answers :
          (a : Answer)
          → AllCalls P (elim a as (λ _. Op Reply) [
            | replied r ↦ returns r
            | timed_out ↦ raises Code.timeout
            | _ ↦ raises Code.unavailable
          ])
      answers (replied r) = tt
      answers _ = tt

  -- A call with a reply, and what follows.
  pub AllCalls-asks :
      {B : Type 0} (c : Call) (f : Reply → Op B)
      → P c
      → ((r : Reply) → AllCalls P (f r))
      → AllCalls P (reply_of c >>= f)
  AllCalls-asks c f p g = AllCalls-bind (reply_of c) f (AllCalls-reply_of c p) g

  -- A check, and what follows.
  pub AllCalls-check :
      {B : Type 0} (b : Bool) (c : Code) (m : Op B)
      → (b ≡ true → AllCalls P m)
      → AllCalls P (guard b c >>= λ (u : Unit {0}). m)
  unfolding AllCalls guard
  AllCalls-check true c m h = h refl
  AllCalls-check false c m h = tt

  pub AllCalls-returns : {A : Type 0} (a : A) → AllCalls P (returns a)
  unfolding AllCalls
  AllCalls-returns a = tt

  pub AllCalls-raises : (A : Type 0) (c : Code) → (let m : Op A = raises c in AllCalls P m)
  unfolding AllCalls
  AllCalls-raises A c = tt

  pub AllCalls-guard : (b : Bool) (c : Code) → AllCalls P (guard b c)
  unfolding AllCalls guard
  AllCalls-guard true c = tt
  AllCalls-guard false c = tt

  AllCalls-leaving :
      {A : Type 0} (m : Op A)
      → P (leaves true)
      → P (leaves false)
      → AllCalls P m
      → AllCalls P (leaving m)
  unfolding leaving AllCalls
  AllCalls-leaving (returns a) p q h = (p, λ _. tt)
  AllCalls-leaving (raises c) p q h = (q, λ _. tt)
  AllCalls-leaving (calls c k) p q h = (h.0, λ a. AllCalls-leaving (k a) p q (h.1 a))

  pub AllCalls-leased :
      {A : Type 0} (wake : Bool) (m : Op A)
      → P (enters wake)
      → P (leaves true)
      → P (leaves false)
      → AllCalls P m
      → AllCalls P (leased wake m)
  unfolding leased AllCalls
  AllCalls-leased wake m e p q h = (e, λ a. entered-calls a)
    where
      entered-calls : (a : Answer) → AllCalls P (entered m a)
      entered-calls refused = tt
      entered-calls timed_out = tt
      entered-calls broken = tt
      entered-calls (replied r) = AllCalls-leaving m p q h
      entered-calls (pictured x y z) = AllCalls-leaving m p q h
      entered-calls done = AllCalls-leaving m p q h

-- The lease is held after an answer to a call.
abbrev pub is_given : Answer → Bool
is_given refused = false
is_given timed_out = false
is_given broken = false
is_given _ = true

abbrev pub held_after : Bool → Call → Answer → Bool
held_after held (enters wake) a = is_given a
held_after held (leaves b) a = false
held_after held _ a = held

-- A lease is not taken twice, and the device is used under a lease only.
abbrev pub is_allowed : Bool → Call → Bool
is_allowed held (enters wake) = not held
is_allowed held unlinks = true
is_allowed held _ = held

-- From a state with the lease held or not, an operation ends without it.
unfoldable pub Balanced : {A : Type 0} → Bool → Op A → Type 0
Balanced held (returns a) = held ≡ false
Balanced held (raises c) = held ≡ false
Balanced held (calls c k) =
    (is_allowed held c ≡ true) × ((a : Answer) → Balanced (held_after held c a) (k a))

abbrev pub is_device : Call → Bool
is_device (enters wake) = false
is_device (leaves b) = false
is_device _ = true

-- The calls of a body that `_use` runs.
abbrev pub IsBody : {A : Type 0} → Op A → Type 0
IsBody m = AllCalls (λ c. is_device c ≡ true) m

device-held :
    (c : Call) (a : Answer)
    → is_device c ≡ true
    → (is_allowed true c ≡ true) × (held_after true c a ≡ true)
device-held (enters w) a h = cc
device-held (leaves b) a h = cc
device-held _ a h = (refl, refl)

leaving-Balanced : {A : Type 0} (m : Op A) → IsBody m → Balanced true (leaving m)
unfolding leaving Balanced AllCalls
leaving-Balanced (returns a) h = (refl, λ _. refl)
leaving-Balanced (raises c) h = (refl, λ _. refl)
leaving-Balanced (calls c k) h =
    ((device-held c done h.0).0, λ a. rw ((device-held c a h.0).1) (leaving-Balanced (k a) (h.1 a)))

pub leased-Balanced :
    {A : Type 0} (wake : Bool) (m : Op A) → IsBody m → Balanced false (leased wake m)
unfolding leased Balanced
leased-Balanced wake m h = (refl, λ a. given a)
  where
    given : (a : Answer) → Balanced (is_given a) (entered m a)
    given refused = refl
    given timed_out = refl
    given broken = refl
    given (replied r) = leaving-Balanced m h
    given (pictured x y z) = leaving-Balanced m h
    given done = leaving-Balanced m h

pub bind-Balanced :
    {A B : Type 0} (held : Bool) (m : Op A) (f : A → Op B)
    → Balanced held m
    → ((a : A) → Balanced false (f a))
    → Balanced held (m >>= f)
unfolding Balanced
bind-Balanced held (returns a) f h g = rw h (g a)
bind-Balanced held (raises c) f h g = h
bind-Balanced held (calls c k) f h g =
    (h.0, λ a. bind-Balanced (held_after held c a) (k a) f (h.1 a) g)

pub guard-Balanced : (b : Bool) (c : Code) → Balanced false (guard b c)
unfolding Balanced guard
guard-Balanced true c = refl
guard-Balanced false c = refl

-- The calls that an operation makes while the answers last, and what is left of it.
unfoldable pub run : {A : Type 0} → List Answer → Op A → List Call × Op A
run as' (returns a) = ([], returns a)
run as' (raises c) = ([], raises c)
run [] (calls c k) = ([], calls c k)
run (a ∷ as') (calls c k) = let rest = run as' (k a) in (c ∷ rest.0, rest.1)
