-- ===== src/Session/Lifting.antt =====
-- The finger of the wheel (session.py: _scroll; input.py: wheel).
use android_appliance.Base.{
  ℕ, zero, suc, ◌≡◌, refl, ◌∙◌, Option, none, some, Bool, true, false, List, [], ◌∷◌, ◌++◌, All,
  get_last?, OnSome, arith, Bool-cases, inl, inr, is_some, ap,
}
use android_appliance.Base.Float.{Floats}
use android_appliance.Input.Touch.{Screen, put_touch}
use android_appliance.Input.Gestures.{
  Step, wheel, play, IsStepOf, IsGesture, play-lift, wheel-IsGesture,
}
use android_appliance.Session.Scroll.{
  Sending, sent_whole, cut_off, lost, Notch, Round, take_steps, last_step, sent, Scrolled,
  add_notches, after_round, drag, scroll,
}

-- The last step of each drag gets through.
abbrev IsReached : Sending → Type 0
IsReached sent_whole = Unit
IsReached (cut_off n) = Unit
IsReached (lost n) = ⊥

module _ {F : Type 0} where
  take_steps-All :
      (P : Step F → Type 0) (n : ℕ) (sts : List (Step F)) → All P sts → All P (take_steps n sts)
  take_steps-All P zero sts h = tt
  take_steps-All P (suc n) [] h = tt
  take_steps-All P (suc n) (st ∷ sts) h = (h.0, take_steps-All P n sts h.1)

  play-append : (xs ys : List (Step F)) (s : Screen) → play (xs ++ ys) s ≡ play ys (play xs s)
  play-append [] ys s = refl
  play-append (x ∷ xs) ys s = play-append xs ys (put_touch x.event s)

  abbrev Lifts : ℕ → Option (Step F) → Type 0
  Lifts i o = OnSome (λ st. (st.event.identifier ≡ i) × (st.event.pressure ≡ 0)) o

  get_last?_some : (x : Step F) (sts : List (Step F)) → is_some (get_last? (x ∷ sts)) ≡ true
  get_last?_some x [] = refl
  get_last?_some x (y ∷ sts) = get_last?_some y sts

  cut_off-Lifts :
      (i n : ℕ) (x : Step F) (sts : List (Step F)) (o : Option (Step F)) (s : Screen) (j : ℕ)
      → All (IsStepOf i) (x ∷ sts)
      → Lifts i o
      → get_last? (x ∷ sts) ≡ o
      → s i ≡ false
      → play (take_steps n (x ∷ sts) ++ last_step o) s j ≡ s j
  cut_off-Lifts i n x sts none s j a l e h = let found = get_last?_some x sts in absurd cc
  cut_off-Lifts i n x sts (some st) s j a l e h =
      play-lift i (take_steps n (x ∷ sts)) st s j (take_steps-All (IsStepOf i) n (x ∷ sts) a) l.0
        l.1
      ∙ ground arith

  sent-lifts :
      (i : ℕ) (k : Sending) (x : Step F) (sts : List (Step F)) (s : Screen) (j : ℕ)
      → IsReached k
      → IsGesture i (x ∷ sts)
      → s i ≡ false
      → play (sent k (x ∷ sts)).0 s j ≡ s j
  unfolding sent
  sent-lifts i sent_whole x sts s j r g h = g.lifts s j h
  sent-lifts i (cut_off n) x sts s j r g h =
      cut_off-Lifts i n x sts (get_last? (x ∷ sts)) s j g.steps g.ends refl h
  sent-lifts i (lost n) x sts s j r g h = absurd r

  -- The rounds whose fingers are not down yet and whose last steps get through.
  abbrev pub AreFresh : Screen → List (Round F) → Type 0
  AreFresh s rs = All (λ r. (s r.identifier ≡ false) × IsReached r.sending) rs

  AreFresh-same :
      (s t : Screen) (rs : List (Round F)) → ((j : ℕ) → t j ≡ s j) → AreFresh s rs → AreFresh t rs
  AreFresh-same s t [] e h = tt
  AreFresh-same s t (r ∷ rs) e h = ((e r.identifier ∙ h.0.0, h.0.1), AreFresh-same s t rs e h.1)

  abbrev pub Leaves : Scrolled F → Screen → Type 0
  Leaves d s = (j : ℕ) → play (d.1) s j ≡ s j

  both_leave :
      (sts : List (Step F)) (rest : Scrolled F) (s : Screen)
      → ((j : ℕ) → play sts s j ≡ s j)
      → ((t : Screen) → ((j : ℕ) → t j ≡ s j) → Leaves rest t)
      → (j : ℕ) → play (sts ++ rest.1) s j ≡ s j
  both_leave sts rest s h k j = ap (λ t. t j) (play-append sts rest.1 s) ∙ k (play sts s) h j ∙ h j

module _ (fl : Floats) where
  open fl use {F}

  after_round-Leaves :
      (w : Option (Notch F)) (d : List (Step F) × Bool) (rest : Scrolled F) (s : Screen)
      → ((j : ℕ) → play (d.0) s j ≡ s j)
      → ((t : Screen) → ((j : ℕ) → t j ≡ s j) → Leaves rest t)
      → Leaves (after_round fl w d rest) s
  after_round-Leaves w (sts, true) rest s h k = both_leave sts rest s h k
  after_round-Leaves w (sts, false) rest s h k = h

  drag-Leaves :
      (n : Notch F) (r : Round F) (sts : List (Step F)) (rest : Scrolled F) (s : Screen)
      → IsGesture r.identifier sts
      → s r.identifier ≡ false
      → IsReached r.sending
      → ((t : Screen) → ((j : ℕ) → t j ≡ s j) → Leaves rest t)
      → Leaves (drag fl n r sts rest) s
  drag-Leaves n r [] rest s g h k rec = λ j. refl
  drag-Leaves n r (x ∷ sts) rest s g h k rec =
      after_round-Leaves (add_notches fl none r.during) (sent r.sending (x ∷ sts)) rest s
        (λ j. sent-lifts r.identifier r.sending x sts s j k g h) rec

  -- Whenever the drags of the wheel are cut off, if the last step of each gets through and their fingers
  -- were up, every finger is after them as before: none of a drag stays down.
  pub scroll-Leaves :
      (w : Option (Notch F)) (rs : List (Round F)) (s : Screen)
      → AreFresh s rs
      → Leaves (scroll fl w rs) s
  unfolding scroll
  scroll-Leaves w [] s h = λ j. refl
  scroll-Leaves none (r ∷ rs) s h = λ j. refl
  scroll-Leaves (some n) (r ∷ rs) s h = elim (Bool-cases r.running) [
    | inr e ↦ rw e (λ j. refl)
    | inl e ↦ rw e (
        drag-Leaves n r (wheel fl r.identifier n.x n.y n.dx n.dy)
          (scroll fl (add_notches fl none r.during) rs) s
          (wheel-IsGesture fl r.identifier n.x n.y n.dx n.dy) h.0.0 h.0.1
          (λ t k. scroll-Leaves (add_notches fl none r.during) rs t (AreFresh-same s t rs k h.1)))
  ]
