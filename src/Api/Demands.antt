-- ===== src/Api/Demands.antt =====
-- What requests can ask of the backend, whatever the client sends (api.py: the methods of Api).
use android_appliance.Base.{
  ℕ, ◌≤◌, ◌≡◌, ◌⊎◌, inl, inr, Option, true, false, ltb, length, arith, Bool-cases,
}
use android_appliance.Base.Text.{Text, codes, is_empty_text}
use android_appliance.Session.Messages.{Json, get}
use android_appliance.Api.Body.{Outcome, save, query_int, read_body}
use android_appliance.Api.Bounds.{save-length}
use android_appliance.Api.Values.{
  json_limit, is_timeout, Number, Floats, Decoders, Request, and_then, json, number_or, timeout,
  string, string_or, text, query_path,
}
use android_appliance.Api.Checked.{
  OnGives, then-OnGives, any-OnGives, IsText, IsDuration, IsWithin, given-OnGives,
  query_int-IsWithin, path_in-given, string-IsText, decoded-IsText,
}
use android_appliance.Api.Routes.{
  Demand, Endpoint, start, stop, restart, wait, screenshot, ui, tap, long_press, swipe, text_input,
  key, shell, apps, install, launch, force_stop, uninstall, pull, push, list_files, logs,
  text_request, is_text_request, key_request, raw_timeout, run_for, shell_request, install_request,
  pull_request, push_request, list_files_request, logs_request, demand,
}
use android_appliance.Api.Touches.{
  IsChecked, skips, start_request-IsChecked, stop_request-IsChecked, restart_request-IsChecked,
  wait_request-IsChecked, screenshot_request-IsChecked, ui_request-IsChecked, tap_request-IsChecked,
  long_press_request-IsChecked, swipe_request-IsChecked,
}

module _ {F : Type 0} (fs : Floats F) (d : Decoders F) (limit : ℕ) where
  string-then :
      (v : Option (Json F)) (f : Text → Outcome (Demand F))
      → ((t : Text) → IsText t → OnGives (IsChecked fs limit) (f t))
      → OnGives (IsChecked fs limit) (and_then (string v) f)
  string-then v f h = then-OnGives IsText (IsChecked fs limit) (string v) f (string-IsText v) h

  text-IsText : (r : Request) → OnGives IsText (text d r)
  unfolding text
  text-IsText r =
      then-OnGives (λ _. Unit) IsText (read_body json_limit r.chunks) _ (any-OnGives _)
        (λ body _. decoded-IsText (d.utf8 body))

  text-then :
      (r : Request) (f : Text → Outcome (Demand F))
      → ((t : Text) → IsText t → OnGives (IsChecked fs limit) (f t))
      → OnGives (IsChecked fs limit) (and_then (text d r) f)
  text-then r f h = then-OnGives IsText (IsChecked fs limit) (text d r) f (text-IsText r) h

  text_request-IsChecked : (r : Request) → OnGives (IsChecked fs limit) (text_request fs d r)
  unfolding text_request
  text_request-IsChecked r = elim (Bool-cases (is_text_request fs d r)) [
    | inl h ↦ rw h (text-then r _ λ t ht. ht)
    | inr h ↦ rw h (
        skips fs limit (json d r) _ λ fields. string-then (get (codes "text") fields) _ λ t ht.
          skips fs limit (string_or (codes "paste") (get (codes "method") fields)) _ λ m. ht)
  ]

  key_request-IsChecked : (r : Request) → OnGives (IsChecked fs limit) (key_request fs d r)
  unfolding key_request
  key_request-IsChecked r =
      skips fs limit (json d r) _ λ fields. string-then (get (codes "key") fields) _ λ t ht. ht

  run_for-IsChecked :
      (command : Text) (n : Number F)
      → IsText command
      → OnGives (IsChecked fs limit) (run_for fs d command n)
  unfolding timeout
  run_for-IsChecked command n h = elim (Bool-cases (is_timeout fs n)) [
    | inl k ↦ rw k (h, k)
    | inr k ↦ rw k tt
  ]

  shell_request-IsChecked : (r : Request) → OnGives (IsChecked fs limit) (shell_request fs d r)
  unfolding shell_request
  shell_request-IsChecked r = elim (Bool-cases (is_text_request fs d r)) [
    | inl h ↦ rw h (
        text-then r _ λ t ht.
          skips fs limit (raw_timeout fs d (r.query (codes "timeout"))) _
            λ n. run_for-IsChecked t n ht)
    | inr h ↦ rw h (
        skips fs limit (json d r) _ λ fields. string-then (get (codes "command") fields) _ λ t ht.
          skips fs limit (number_or fs 300 (get (codes "timeout") fields)) _
            λ n. run_for-IsChecked t n ht)
  ]

  saved-then :
      (r : Request) (f : ℕ → Outcome (Demand F))
      → let saved = save limit (r.header (codes "content-length")) r.chunks in
        ((n : ℕ) → length (saved.0) ≡ n → n ≤ limit → OnGives (IsChecked fs limit) (f n))
        → OnGives (IsChecked fs limit) (and_then (saved.1) f)
  saved-then r f h =
      let saved = save limit (r.header (codes "content-length")) r.chunks in
      let P : ℕ → Type 0 = λ n. (length (saved.0) ≡ n) × (n ≤ limit) in
      then-OnGives P (IsChecked fs limit) (saved.1) f
        (given-OnGives P (saved.1) (save-length limit (r.header (codes "content-length")) r.chunks))
        (λ n k. h n k.0 k.1)

  install_request-IsChecked :
      (r : Request) → OnGives (IsChecked fs limit) (install_request fs d limit r)
  unfolding install_request
  install_request-IsChecked r = saved-then r _ λ n e h. elim (Bool-cases (ltb 0 n)) [
    | inl k ↦ rw k (ground arith, ground arith)
    | inr k ↦ rw k tt
  ]

  path-then :
      (r : Request) (f : Text → Outcome (Demand F))
      → ((p : Text) → is_empty_text p ≡ false → OnGives (IsChecked fs limit) (f p))
      → OnGives (IsChecked fs limit) (and_then (query_path r) f)
  path-then r f h =
      then-OnGives (λ p. is_empty_text p ≡ false) (IsChecked fs limit) (query_path r) f
        (path_in-given (r.query (codes "path"))) h

  push_request-IsChecked : (r : Request) → OnGives (IsChecked fs limit) (push_request fs d limit r)
  unfolding push_request
  push_request-IsChecked r = path-then r _ λ p hp. saved-then r _ λ n e h. (ground arith, hp)

  lines-IsWithin : (n : ℕ) → (n ≡ 200) ⊎ IsWithin 1 100000 n → IsWithin 1 100000 n
  lines-IsWithin n h = ground arith

  logs_request-IsChecked : (r : Request) → OnGives (IsChecked fs limit) (logs_request fs d r)
  unfolding logs_request
  logs_request-IsChecked r =
      then-OnGives (λ n. (n ≡ 200) ⊎ IsWithin 1 100000 n) (IsChecked fs limit)
        (query_int (r.query (codes "lines")) 200 1 100000) _
        (query_int-IsWithin (r.query (codes "lines")) 200 1 100000) lines-IsWithin

-- Whatever a request holds, the call that its handler makes has passed the checks: coordinates are
-- finite numbers, durations at most 60,000 ms, timeouts positive and at most a day; typed text, keys
-- and commands hold no NUL and no surrogate; a picture's format, quality and size and the lines of a
-- log are in their ranges; an upload is within its limit and an APK not empty; paths are not empty.
-- It needs that int() keeps a float from 0 to 60,000 in that range.
pub demand-IsChecked :
    {F : Type 0} (fs : Floats F) (d : Decoders F) (limit : ℕ)
    → ((x : F) → fs.is_duration x ≡ true → IsDuration (fs.truncated x))
    → (e : Endpoint) (r : Request) → OnGives (IsChecked fs limit) (demand fs d limit e r)
unfolding demand pull_request list_files_request
demand-IsChecked fs d limit h start r = start_request-IsChecked fs d limit r
demand-IsChecked fs d limit h stop r = stop_request-IsChecked fs d limit r
demand-IsChecked fs d limit h restart r = restart_request-IsChecked fs d limit r
demand-IsChecked fs d limit h wait r = wait_request-IsChecked fs d limit r
demand-IsChecked fs d limit h screenshot r = screenshot_request-IsChecked fs d limit r
demand-IsChecked fs d limit h ui r = ui_request-IsChecked fs d limit r
demand-IsChecked fs d limit h tap r = tap_request-IsChecked fs d limit r
demand-IsChecked fs d limit h long_press r = long_press_request-IsChecked fs d limit h r
demand-IsChecked fs d limit h swipe r = swipe_request-IsChecked fs d limit h r
demand-IsChecked fs d limit h text_input r = text_request-IsChecked fs d limit r
demand-IsChecked fs d limit h key r = key_request-IsChecked fs d limit r
demand-IsChecked fs d limit h shell r = shell_request-IsChecked fs d limit r
demand-IsChecked fs d limit h apps r = tt
demand-IsChecked fs d limit h install r = install_request-IsChecked fs d limit r
demand-IsChecked fs d limit h launch r = tt
demand-IsChecked fs d limit h force_stop r = tt
demand-IsChecked fs d limit h uninstall r = tt
demand-IsChecked fs d limit h pull r = path-then fs d limit r _ λ p hp. hp
demand-IsChecked fs d limit h push r = push_request-IsChecked fs d limit r
demand-IsChecked fs d limit h list_files r = path-then fs d limit r _ λ p hp. hp
demand-IsChecked fs d limit h logs r = logs_request-IsChecked fs d limit r
