-- ===== src/Supervisor/Authorized.antt =====
-- When the wait for the device gives up (supervisor.py: _wait_device).
use android_appliance.Base.{
  ℕ, ◌+◌, ◌≤◌, ◌<◌, ◌≡◌, ◌↔◌, ◌⊎◌, inl, inr, Option, none, some, List, [], ◌∷◌, ltb, arith,
  Bool-cases,
}
use android_appliance.Supervisor.Device.{
  AdbState, device, unauthorized, other_state, not_authorized, unauthorized_limit, wait_device,
}

abbrev pub Answers : Type 0
Answers = List (ℕ × AdbState)

-- From the start all answers are "unauthorized", up to one more than 30 seconds after s.
abbrev pub RunsFrom : ℕ → Answers → Type 0
RunsFrom s ((now, unauthorized) ∷ answers) = (s + unauthorized_limit < now) ⊎ RunsFrom s answers
RunsFrom s _ = ⊥

-- Such a run begins somewhere before the first "device".
abbrev pub HasRun : Answers → Type 0
HasRun ((now, unauthorized) ∷ answers) = RunsFrom now answers ⊎ HasRun answers
HasRun ((now, other_state) ∷ answers) = HasRun answers
HasRun _ = ⊥

-- The clock does not go back.
abbrev pub IsClock : ℕ → Answers → Type 0
IsClock s [] = Unit
IsClock s ((now, a) ∷ answers) = (s ≤ now) × IsClock now answers

abbrev RunsOn : Option ℕ → Answers → Type 0
RunsOn none answers = HasRun answers
RunsOn (some s) answers = RunsFrom s answers ⊎ HasRun answers

given_up :
    (o : Option ℕ) (answers : Answers) → wait_device o answers ≡ not_authorized → RunsOn o answers
unfolding wait_device
given_up none [] e = ground arith
given_up (some s) [] e = ground arith
given_up none ((now, device) ∷ answers) e = ground arith
given_up (some s) ((now, device) ∷ answers) e = ground arith
given_up none ((now, other_state) ∷ answers) e = given_up none answers e
given_up (some s) ((now, other_state) ∷ answers) e = inr (given_up none answers e)
given_up none ((now, unauthorized) ∷ answers) e = given_up (some now) answers e
given_up (some s) ((now, unauthorized) ∷ answers) e =
    elim (Bool-cases (ltb (s + unauthorized_limit) now)) [
      | inl over ↦ inl (inl (ground arith))
      | inr early ↦ elim (given_up (some s) answers (rw early at e)) [
        | inl run ↦ inl (inr run)
        | inr run ↦ inr (inr run)
      ]
    ]

earlier : (s t : ℕ) (answers : Answers) → s ≤ t → RunsFrom t answers → RunsFrom s answers
earlier s t ((now, unauthorized) ∷ answers) h (inl k) = inl (omega (arith, h, k))
earlier s t ((now, unauthorized) ∷ answers) h (inr k) = inr (earlier s t answers h k)
earlier s t ((now, device) ∷ answers) h k = absurd k
earlier s t ((now, other_state) ∷ answers) h k = absurd k
earlier s t [] h k = absurd k

runs-not_authorized :
    (s : ℕ) (answers : Answers) → RunsFrom s answers → wait_device (some s) answers ≡ not_authorized
unfolding wait_device
runs-not_authorized s ((now, unauthorized) ∷ answers) (inl k) = ground arith
runs-not_authorized s ((now, unauthorized) ∷ answers) (inr k) =
    ground (arith, runs-not_authorized s answers k)
runs-not_authorized s ((now, device) ∷ answers) k = absurd k
runs-not_authorized s ((now, other_state) ∷ answers) k = absurd k
runs-not_authorized s [] k = absurd k

abbrev IsBefore : Option ℕ → Answers → Type 0
IsBefore none answers = IsClock 0 answers
IsBefore (some s) answers = IsClock s answers

IsClock-earlier : (s t : ℕ) (answers : Answers) → s ≤ t → IsClock t answers → IsClock s answers
IsClock-earlier s t [] h c = tt
IsClock-earlier s t ((now, a) ∷ answers) h c = (omega (arith, h, c.0), c.1)

-- The clock of the answers after the first.
IsClock-later :
    (o : Option ℕ) (now : ℕ) (a : AdbState) (answers : Answers)
    → IsBefore o ((now, a) ∷ answers)
    → IsClock 0 answers
IsClock-later none now a answers c = IsClock-earlier 0 now answers c.0 c.1
IsClock-later (some s) now a answers c = IsClock-earlier 0 now answers (omega arith) c.1

run-not_authorized :
    (o : Option ℕ) (answers : Answers)
    → IsBefore o answers
    → HasRun answers
    → wait_device o answers ≡ not_authorized
unfolding wait_device
run-not_authorized o ((now, other_state) ∷ answers) c h =
    run-not_authorized none answers (IsClock-later o now other_state answers c) h
run-not_authorized none ((now, unauthorized) ∷ answers) c (inl k) =
    runs-not_authorized now answers k
run-not_authorized none ((now, unauthorized) ∷ answers) c (inr k) =
    run-not_authorized (some now) answers c.1 k
run-not_authorized (some s) ((now, unauthorized) ∷ answers) c (inl k) =
    runs-not_authorized s ((now, unauthorized) ∷ answers) (inr (earlier s now answers c.0 k))
run-not_authorized (some s) ((now, unauthorized) ∷ answers) c (inr k) =
    ground (arith, run-not_authorized (some s) answers (IsClock-earlier s now answers c.0 c.1) k)
run-not_authorized o ((now, device) ∷ answers) c k = absurd k
run-not_authorized o [] c k = absurd k

-- Without a clock that goes back, the wait fails exactly if adb, before it names the device, answers
-- "unauthorized" in a row from one time to another more than 30 seconds later.
pub wait_device_iff :
    (answers : Answers)
    → IsClock 0 answers
    → (wait_device none answers ≡ not_authorized) ↔ HasRun answers
wait_device_iff answers c = (given_up none answers, run-not_authorized none answers c)
