-- ===== src/Session/Rate.antt =====
-- How many messages and errors a bucket lets through.
use android_appliance.Base.{
  ℕ, ◌+◌, ◌-◌, ◌*◌, ◌≤◌, ◌≡◌, refl, true, List, [], ◌∷◌, arith, length, ◌<◌, sym, ap, ◌∙◌,
}
use native.Mathlib.Nat.{mul-add}
use android_appliance.Session.Limits.{Bucket, new_bucket, filled, read, errors}

-- The times do not go back.
abbrev pub IsOrdered : ℕ → List ℕ → Type 0
IsOrdered t [] = Unit {0}
IsOrdered t (u ∷ us) = (t ≤ u) × IsOrdered u us

abbrev pub last : ℕ → List ℕ → ℕ
last t [] = t
last t (u ∷ us) = last u us

mul_sub : (r a b : ℕ) → a ≤ b → r * (b - a) + r * a ≡ r * b
mul_sub r a b h =
    let back : b - a + a ≡ b = omega arith in sym (mul-add r (b - a) a) ∙ ap (λ x. r * x) back

last-le : (t : ℕ) (ts : List ℕ) → IsOrdered t ts → t ≤ last t ts
last-le t [] h = omega arith
last-le t (u ∷ us) h = omega (arith, last-le u us h.1, h.0)

-- What a bucket gives out is covered by its tokens and by what flows in.
read-le :
    (ts : List ℕ) (b : Bucket)
    → IsOrdered b.time ts
    → (read ts b).1 * 1000000 + b.rate * b.time ≤ b.tokens + b.rate * last b.time ts
unfolding read
read-le [] b h = omega arith
read-le (now ∷ ts) b h = ground (
  arith,
  read-le ts (record b { tokens = filled now b - 1000000; time = now }) h.1,
  mul_sub b.rate b.time now h.0,
  mul_sub b.rate now (last now ts) (last-le now ts h.1),
)

errors-le :
    (ts : List ℕ) (b : Bucket)
    → IsOrdered b.time ts
    → (errors ts b).1 * 1000000 + b.rate * b.time ≤ b.tokens + b.rate * last b.time ts
unfolding errors
errors-le [] b h = omega arith
errors-le (now ∷ ts) b h = ground (
  arith,
  errors-le ts (record b { tokens = filled now b - 1000000; time = now }) h.1,
  errors-le ts (record b { tokens = filled now b; time = now }) h.1,
  mul_sub b.rate b.time now h.0,
)

-- From a session's start to any later message it dispatches at most its burst and `rate` messages
-- for each second between, and it sends at most so many errors, for times that do not go back.
pub rate_bounded :
    (rate burst start : ℕ) (ts : List ℕ)
    → IsOrdered start ts
    → let b = new_bucket rate burst start in
      let inflow = rate * (last start ts - start) in
      ((read ts b).1 * 1000000 ≤ burst * 1000000 + inflow)
      × ((errors ts b).1 * 1000000 ≤ burst * 1000000 + inflow)
unfolding new_bucket
rate_bounded rate burst start ts h =
    let b = new_bucket rate burst start in
    let m = mul_sub rate start (last start ts) (last-le start ts h) in
    (omega (arith, read-le ts b h, m), omega (arith, errors-le ts b h, m))

-- The gaps are long enough for the rate.
abbrev pub IsSteady : ℕ → ℕ → List ℕ → Type 0
IsSteady rate t [] = Unit {0}
IsSteady rate t (u ∷ us) = (1000000 ≤ rate * (u - t)) × IsSteady rate u us

read_steady :
    (ts : List ℕ) (b : Bucket)
    → 1000000 ≤ b.burst
    → IsSteady b.rate b.time ts
    → ((read ts b).1 ≡ length ts) × ((read ts b).2 ≡ true)
unfolding read
read_steady [] b m h = (refl, refl)
read_steady (now ∷ ts) b m h =
    ground
      (arith, h.0, read_steady ts (record b { tokens = filled now b - 1000000; time = now }) m h.1)

-- A session whose messages keep within the rate, each after its gap, is never closed for its
-- messages: all of them are dispatched; for a burst of at least one.
steady_stays :
    (rate burst start : ℕ) (ts : List ℕ)
    → 0 < burst
    → IsSteady rate start ts
    → let r = read ts (new_bucket rate burst start) in (r.1 ≡ length ts) × (r.2 ≡ true)
unfolding new_bucket
steady_stays rate burst start ts m h = read_steady ts (new_bucket rate burst start) (omega arith) h
