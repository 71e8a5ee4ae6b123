-- ===== src/Api/Checked.antt =====
-- The values of a request that pass their checks (api.py: _number, _duration, _timeout, _string, _clean,
-- _query_int, _query_path).
use android_appliance.Base.{
  ℕ, ◌≤◌, ◌≡◌, refl, ◌⊎◌, inl, inr, Option, none, some, true, false, leb, any, if◌then◌else◌, arith,
  OnSome, Bool-cases,
}
use android_appliance.Base.Int.{ℤ, pos, negsuc}
use android_appliance.Base.Text.{Text, contains, is_empty_text}
use android_appliance.Session.Messages.{
  Json, null, boolean, integer, float, string_value, array, object,
}
use android_appliance.Api.Body.{
  Outcome, bad_request, too_large, value_error, gives, query_int, clean, is_surrogate,
}
use android_appliance.Api.Bounds.{query_int-between}
use android_appliance.Api.Values.{
  Number, whole, real, Floats, and_then, max_duration, checked_number, number, number_or,
  is_duration, truncate, duration, is_timeout, timeout, string, decoded, path_in,
}

abbrev pub OnGives : {A : Type 0} → (A → Type 0) → Outcome A → Type 0
OnGives P (gives a) = P a
OnGives P _ = Unit

pub then-OnGives :
    {A B : Type 0} (P : A → Type 0) (Q : B → Type 0) (o : Outcome A) (f : A → Outcome B)
    → OnGives P o
    → ((a : A) → P a → OnGives Q (f a))
    → OnGives Q (and_then o f)
then-OnGives P Q bad_request f h k = tt
then-OnGives P Q too_large f h k = tt
then-OnGives P Q value_error f h k = tt
then-OnGives P Q (gives a) f h k = k a h

-- Of a result of which nothing is needed.
pub any-OnGives : {A : Type 0} (o : Outcome A) → OnGives (λ _. Unit) o
any-OnGives bad_request = tt
any-OnGives too_large = tt
any-OnGives value_error = tt
any-OnGives (gives a) = tt

-- A text that fits a process argument and a protobuf string.
abbrev pub IsText : Text → Type 0
IsText t = (contains 0 t ≡ false) × (any is_surrogate t ≡ false)

abbrev pub IsDuration : ℤ → Type 0
IsDuration (pos n) = n ≤ max_duration
IsDuration (negsuc n) = ⊥

abbrev pub IsWithin : ℕ → ℕ → ℕ → Type 0
IsWithin low high n = (low ≤ n) × (n ≤ high)

clean-IsText : (t : Text) → OnGives IsText (clean t)
unfolding clean
clean-IsText t = elim (Bool-cases (contains 0 t)) [
  | inl h ↦ rw h tt
  | inr h ↦ elim (Bool-cases (any is_surrogate t)) [
    | inl k ↦ rw (h, k) tt
    | inr k ↦ rw (h, k) (h, k)
  ]
]

pub given-OnGives :
    {A : Type 0} (P : A → Type 0) (o : Outcome A) → ((a : A) → o ≡ gives a → P a) → OnGives P o
given-OnGives P bad_request h = tt
given-OnGives P too_large h = tt
given-OnGives P value_error h = tt
given-OnGives P (gives a) h = h a refl

pub query_int-IsWithin :
    (raw : Option Text) (default low high : ℕ)
    → OnGives (λ n. (n ≡ default) ⊎ IsWithin low high n) (query_int raw default low high)
query_int-IsWithin raw default low high =
    given-OnGives (λ n. (n ≡ default) ⊎ IsWithin low high n) (query_int raw default low high)
      (query_int-between raw default low high)

pub path_in-given : (t : Option Text) → OnGives (λ p. is_empty_text p ≡ false) (path_in t)
path_in-given none = tt
path_in-given (some t) = elim (Bool-cases (is_empty_text t)) [ inl h ↦ rw h tt | inr h ↦ rw h h ]

module _ {F : Type 0} (fs : Floats F) where
  abbrev pub IsNumber : Number F → Type 0
  IsNumber (whole n) = fs.fits_float n ≡ true
  IsNumber (real x) = fs.is_finite x ≡ true

  abbrev pub IsTimeout : Number F → Type 0
  IsTimeout n = is_timeout fs n ≡ true

  checked_number-IsNumber : (j : Json F) → OnGives IsNumber (checked_number fs j)
  checked_number-IsNumber (integer n) = elim (Bool-cases (fs.fits_float n)) [
    | inl h ↦ rw h h
    | inr h ↦ rw h tt
  ]
  checked_number-IsNumber (float x) = elim (Bool-cases (fs.is_finite x)) [
    | inl h ↦ rw h h
    | inr h ↦ rw h tt
  ]
  checked_number-IsNumber null = tt
  checked_number-IsNumber (boolean b) = tt
  checked_number-IsNumber (string_value t) = tt
  checked_number-IsNumber (array t) = tt
  checked_number-IsNumber (object t) = tt

  pub number-IsNumber : (j : Option (Json F)) → OnGives IsNumber (number fs j)
  unfolding number
  number-IsNumber none = tt
  number-IsNumber (some j) = checked_number-IsNumber j

  pub timeout-IsTimeout : (n : Option (Number F)) → OnGives (OnSome IsTimeout) (timeout fs n)
  unfolding timeout
  timeout-IsTimeout none = tt
  timeout-IsTimeout (some n) = elim (Bool-cases (is_timeout fs n)) [
    | inl h ↦ rw h h
    | inr h ↦ rw h tt
  ]

  within-IsDuration :
      ((x : F) → fs.is_duration x ≡ true → IsDuration (fs.truncated x))
      → (n : Number F)
      → OnGives IsDuration (if is_duration fs n then gives (truncate fs n) else bad_request)
  within-IsDuration t (whole (pos n)) = elim (Bool-cases (leb n max_duration)) [
    | inl h ↦ rw h (ground arith)
    | inr h ↦ rw h tt
  ]
  within-IsDuration t (whole (negsuc n)) = tt
  within-IsDuration t (real x) = elim (Bool-cases (fs.is_duration x)) [
    | inl h ↦ rw h (t x h)
    | inr h ↦ rw h tt
  ]

  pub duration-IsDuration :
      ((x : F) → fs.is_duration x ≡ true → IsDuration (fs.truncated x))
      → (default : ℕ) (j : Option (Json F)) → OnGives IsDuration (duration fs default j)
  unfolding duration
  duration-IsDuration t default j =
      then-OnGives (λ _. Unit) IsDuration (number_or fs default j) _ (any-OnGives _)
        (λ n _. within-IsDuration t n)

pub string-IsText : {F : Type 0} (j : Option (Json F)) → OnGives IsText (string j)
unfolding string
string-IsText none = tt
string-IsText (some (string_value t)) = clean-IsText t
string-IsText (some null) = tt
string-IsText (some (boolean b)) = tt
string-IsText (some (integer t)) = tt
string-IsText (some (float t)) = tt
string-IsText (some (array t)) = tt
string-IsText (some (object t)) = tt

pub decoded-IsText : (t : Option Text) → OnGives IsText (decoded t)
decoded-IsText none = tt
decoded-IsText (some t) = clean-IsText t
