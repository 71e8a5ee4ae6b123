-- ===== src/Api/Touches.antt =====
-- What a call of the backend may hold, and the requests for the lifecycle, the screen and touches
-- (api.py: the methods of Api from start to swipe).
use android_appliance.Base.{
  ℕ, suc, zero, ◌≤◌, ◌≡◌, ◌⊎◌, inl, inr, true, false, ◌||◌, length, arith, OnSome, Bool-cases,
}
use android_appliance.Base.Int.{ℤ}
use android_appliance.Base.Text.{Text, codes, text_eq, is_empty_text}
use android_appliance.Session.Messages.{Fields, get}
use android_appliance.Api.Body.{Outcome, query_int}
use android_appliance.Api.Values.{
  Number, Floats, Decoders, Request, and_then, json, number, number_or_none, duration, timeout,
  bool, or_default,
}
use android_appliance.Api.Checked.{
  OnGives, then-OnGives, any-OnGives, IsText, IsDuration, IsWithin, query_int-IsWithin, IsNumber,
  IsTimeout, number-IsNumber, timeout-IsTimeout, duration-IsDuration,
}
use android_appliance.Api.Routes.{
  Demand, starts, restarts, waits, shoots, taps, long_presses, swipes, types, presses_key, runs,
  installs, pulls, pushes, lists_files, reads_log, timeout_of, start_request, stop_request,
  restart_request, wait_request, nonzero, shoot, screenshot_request, ui_request, tap_request,
  long_press_request, swipe_request,
}

module _ {F : Type 0} (fs : Floats F) where
  -- What a call may hold, for the most that an upload may take.
  abbrev pub IsChecked : ℕ → Demand F → Type 0
  IsChecked limit (starts b t) = OnSome (IsTimeout fs) t
  IsChecked limit (restarts b t) = OnSome (IsTimeout fs) t
  IsChecked limit (waits t) = OnSome (IsTimeout fs) t
  IsChecked limit (shoots format quality size passive) =
      (text_eq format (codes "png") || text_eq format (codes "jpeg") ≡ true)
      × IsWithin 1 100 quality
      × OnSome (IsWithin 16 100000) size
  IsChecked limit (taps x y) = IsNumber fs x × IsNumber fs y
  IsChecked limit (long_presses x y n) = IsNumber fs x × IsNumber fs y × IsDuration n
  IsChecked limit (swipes x1 y1 x2 y2 n) =
      IsNumber fs x1 × IsNumber fs y1 × IsNumber fs x2 × IsNumber fs y2 × IsDuration n
  IsChecked limit (types t method) = IsText t
  IsChecked limit (presses_key k) = IsText k
  IsChecked limit (runs command n) = IsText command × IsTimeout fs n
  IsChecked limit (installs bytes replace grant downgrade test) = IsWithin 1 limit (length bytes)
  IsChecked limit (pulls path) = is_empty_text path ≡ false
  IsChecked limit (pushes bytes path name) = (length bytes ≤ limit) × (is_empty_text path ≡ false)
  IsChecked limit (lists_files path) = is_empty_text path ≡ false
  IsChecked limit (reads_log source lines) = IsWithin 1 100000 lines
  IsChecked limit _ = Unit

  -- The steps whose results the call does not show.
  pub skips :
      {A : Type 0} (limit : ℕ) (o : Outcome A) (f : A → Outcome (Demand F))
      → ((a : A) → OnGives (IsChecked limit) (f a))
      → OnGives (IsChecked limit) (and_then o f)
  skips limit o f h = then-OnGives (λ _. Unit) (IsChecked limit) o f (any-OnGives o) (λ a _. h a)

module _ {F : Type 0} (fs : Floats F) (d : Decoders F) (limit : ℕ) where
  timeout_of-IsTimeout :
      (fields : Fields F) → OnGives (OnSome (IsTimeout fs)) (timeout_of fs d fields)
  timeout_of-IsTimeout fields =
      then-OnGives (λ _. Unit) (OnSome (IsTimeout fs))
        (number_or_none fs (get (codes "timeout") fields)) (timeout fs) (any-OnGives _)
        (λ n _. timeout-IsTimeout fs n)

  pub start_request-IsChecked : (r : Request) → OnGives (IsChecked fs limit) (start_request fs d r)
  unfolding start_request
  start_request-IsChecked r = skips fs limit (json d r) _ λ fields.
      skips fs limit (bool true (get (codes "wait") fields)) _ λ b.
        then-OnGives (OnSome (IsTimeout fs)) (IsChecked fs limit) (timeout_of fs d fields) _
          (timeout_of-IsTimeout fields) (λ t h. h)

  pub stop_request-IsChecked : (r : Request) → OnGives (IsChecked fs limit) (stop_request fs d r)
  unfolding stop_request
  stop_request-IsChecked r =
      skips fs limit (json d r) _
        λ fields. skips fs limit (bool true (get (codes "wait") fields)) _ λ b. tt

  pub restart_request-IsChecked :
      (r : Request) → OnGives (IsChecked fs limit) (restart_request fs d r)
  unfolding restart_request
  restart_request-IsChecked r = skips fs limit (json d r) _ λ fields.
      skips fs limit (bool true (get (codes "wait") fields)) _ λ b.
        then-OnGives (OnSome (IsTimeout fs)) (IsChecked fs limit) (timeout_of fs d fields) _
          (timeout_of-IsTimeout fields) (λ t h. h)

  pub wait_request-IsChecked : (r : Request) → OnGives (IsChecked fs limit) (wait_request fs d r)
  unfolding wait_request
  wait_request-IsChecked r = skips fs limit (json d r) _ λ fields.
      then-OnGives (OnSome (IsTimeout fs)) (IsChecked fs limit) (timeout_of fs d fields) _
        (timeout_of-IsTimeout fields) (λ t h. h)

  nonzero-IsWithin :
      (low high n : ℕ) → (n ≡ 0) ⊎ IsWithin low high n → OnSome (IsWithin low high) (nonzero fs d n)
  nonzero-IsWithin low high zero h = tt
  nonzero-IsWithin low high (suc n) (inl h) = absurd (omega arith)
  nonzero-IsWithin low high (suc n) (inr h) = h

  quality-IsWithin : (n : ℕ) → (n ≡ 85) ⊎ IsWithin 1 100 n → IsWithin 1 100 n
  quality-IsWithin n h = ground arith

  shoot-IsChecked :
      (r : Request) (format : Text)
      → text_eq format (codes "png") || text_eq format (codes "jpeg") ≡ true
      → OnGives (IsChecked fs limit) (shoot fs d r format)
  shoot-IsChecked r format known =
      then-OnGives (λ n. (n ≡ 85) ⊎ IsWithin 1 100 n) (IsChecked fs limit)
        (query_int (r.query (codes "quality")) 85 1 100) _
        (query_int-IsWithin (r.query (codes "quality")) 85 1 100)
        λ quality q.
          then-OnGives (λ n. (n ≡ 0) ⊎ IsWithin 16 100000 n) (IsChecked fs limit)
            (query_int (r.query (codes "max_size")) 0 16 100000) _
            (query_int-IsWithin (r.query (codes "max_size")) 0 16 100000)
            λ size z. (known, quality-IsWithin quality q, nonzero-IsWithin 16 100000 size z)

  pub screenshot_request-IsChecked :
      (r : Request) → OnGives (IsChecked fs limit) (screenshot_request fs d r)
  unfolding screenshot_request
  screenshot_request-IsChecked r =
      let format = or_default (codes "png") (r.query (codes "format")) in
      elim (Bool-cases (text_eq format (codes "png") || text_eq format (codes "jpeg"))) [
        | inl h ↦ rw h (shoot-IsChecked r format h)
        | inr h ↦ rw h tt
      ]

  pub ui_request-IsChecked : (r : Request) → OnGives (IsChecked fs limit) (ui_request fs d r)
  unfolding ui_request
  ui_request-IsChecked r =
      let format = or_default (codes "xml") (r.query (codes "format")) in
      elim (Bool-cases (text_eq format (codes "xml"))) [
        | inl h ↦ rw h tt
        | inr h ↦ elim (Bool-cases (text_eq format (codes "compact"))) [
          | inl k ↦ rw (h, k) tt
          | inr k ↦ rw (h, k) tt
        ]
      ]

  number_at-then :
      (name : Text) (fields : Fields F) (f : Number F → Outcome (Demand F))
      → ((x : Number F) → IsNumber fs x → OnGives (IsChecked fs limit) (f x))
      → OnGives (IsChecked fs limit) (and_then (number fs (get name fields)) f)
  number_at-then name fields f h =
      then-OnGives (IsNumber fs) (IsChecked fs limit) (number fs (get name fields)) f
        (number-IsNumber fs (get name fields)) h

  pub tap_request-IsChecked : (r : Request) → OnGives (IsChecked fs limit) (tap_request fs d r)
  unfolding tap_request
  tap_request-IsChecked r = skips fs limit (json d r) _ λ fields.
      number_at-then (codes "x") fields _
        λ x hx. number_at-then (codes "y") fields _ λ y hy. (hx, hy)

  module _ (truncation : (x : F) → fs.is_duration x ≡ true → IsDuration (fs.truncated x)) where
    duration-then :
        (default : ℕ) (fields : Fields F) (f : ℤ → Outcome (Demand F))
        → ((n : ℤ) → IsDuration n → OnGives (IsChecked fs limit) (f n))
        → OnGives
            (IsChecked fs limit)
            (and_then (duration fs default (get (codes "duration_ms") fields)) f)
    duration-then default fields f h =
        let v = get (codes "duration_ms") fields in
        then-OnGives IsDuration (IsChecked fs limit) (duration fs default v) f
          (duration-IsDuration fs truncation default v) h

    pub long_press_request-IsChecked :
        (r : Request) → OnGives (IsChecked fs limit) (long_press_request fs d r)
    unfolding long_press_request
    long_press_request-IsChecked r = skips fs limit (json d r) _ λ fields.
        number_at-then (codes "x") fields _ λ x hx.
          number_at-then (codes "y") fields _
            λ y hy. duration-then 800 fields _ λ n hn. (hx, hy, hn)

    pub swipe_request-IsChecked :
        (r : Request) → OnGives (IsChecked fs limit) (swipe_request fs d r)
    unfolding swipe_request
    swipe_request-IsChecked r = skips fs limit (json d r) _ λ fields.
        number_at-then (codes "x1") fields _ λ x1 h1. number_at-then (codes "y1") fields _ λ y1 h2.
          number_at-then (codes "x2") fields _ λ x2 h3.
            number_at-then (codes "y2") fields _
              λ y2 h4. duration-then 300 fields _ λ n hn. (h1, h2, h3, h4, hn)
