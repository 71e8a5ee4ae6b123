-- ===== src/Session/Keys.antt =====
-- The keys of a session against the keyboard of the emulator.
use android_appliance.Base.{
  ℕ, suc, ◌≤◌, ◌≡◌, refl, sym, ap, subst, ◌∙◌, inl, inr, Option, none, some, Bool, true, false, not,
  ◌&&◌, ◌||◌, List, [], ◌∷◌, ◌++◌, arith, leb, ◌==◌, ==_refl, if◌then◌else◌, length, Bool-cases,
}
use android_appliance.Base.Text.{Text, text_eq, text_eq_refl, text_eq_sound}
use android_appliance.Input.Keys.{
  KeySpec, named, evdev, KeyEvent, EventType, keydown, keyup, keypress, Action, down, up, press,
  Plan, send, paste, Button,
}
use android_appliance.Input.KeyLaws.{
  Answers, LetsGo, sends, browser_key-up, button_key-up, browser_key-repeat, browser_key-LetsGo,
  browser_key-sends, button_key-repeat, button_key-LetsGo, button_key-sends, browser_key-press,
  button_key-press,
}
use android_appliance.Session.Keyboard.{
  HeldName, of_key, of_button, held_eq, Held, holds, pop, put, Out, sent, pasted, refused,
  modifiers, ups, downs, paste_text, press_plan, plan_of, press_key, is_keydown, max_held, send_key,
  is_up,
}

abbrev pub spec_eq : KeySpec → KeySpec → Bool
spec_eq (named s) (named t) = text_eq s t
spec_eq (evdev m) (evdev n) = m == n
spec_eq _ _ = false

spec_eq_refl : (k : KeySpec) → spec_eq k k ≡ true
spec_eq_refl (named s) = text_eq_refl s
spec_eq_refl (evdev n) = ==_refl n

-- The keys that are down at the emulator.
abbrev pub Board : Type 0
Board = KeySpec → Bool

abbrev pub key_down : EventType → Bool → Bool
key_down keydown b = true
key_down keyup b = false
key_down keypress b = b

abbrev pub strike : KeyEvent → Board → Board
strike e b k = if spec_eq e.spec k then key_down e.event_type (b k) else b k

abbrev pub typed : List Out → Board → Board
typed [] b = b
typed (sent e ∷ os) b = typed os (strike e b)
typed (pasted t ∷ os) b = typed os b
typed (refused ∷ os) b = typed os b

-- Whether a held key has this event key.
abbrev pub covers : Held → KeySpec → Bool
covers [] k = false
covers ((n, e) ∷ h) k = spec_eq e.spec k || covers h k

typed-append : (os ps : List Out) (b : Board) → typed (os ++ ps) b ≡ typed ps (typed os b)
typed-append [] ps b = refl
typed-append (sent e ∷ os) ps b = typed-append os ps (strike e b)
typed-append (pasted t ∷ os) ps b = typed-append os ps b
typed-append (refused ∷ os) ps b = typed-append os ps b

-- What reaches the emulator of the calls that send: each gets through or is lost, and those of a call
-- that is cancelled are not made any more.
abbrev pub deliver : List Bool → List Out → List Out
deliver [] os = []
deliver (f ∷ fs) [] = []
deliver (f ∷ fs) (o ∷ os) = let rest = deliver fs os in if f then o ∷ rest else rest

-- Whether a held modifier has this event key.
abbrev pub modifies : List KeyEvent → KeySpec → Bool
modifies [] k = false
modifies (e ∷ es) k = spec_eq e.spec k || modifies es k

abbrev AllUp : List KeyEvent → Type 0
AllUp [] = Unit {0}
AllUp (e ∷ es) = (e.event_type ≡ keyup) × AllUp es

abbrev pub HeldUp : Held → Type 0
HeldUp [] = Unit {0}
HeldUp ((n, e) ∷ h) = (e.event_type ≡ keyup) × HeldUp h

modifiers-AllUp : (h : Held) → HeldUp h → AllUp (modifiers h)
unfolding modifiers
modifiers-AllUp [] u = tt
modifiers-AllUp ((n, e) ∷ h) u = ground (arith, modifiers-AllUp h u.1)

typed-ups :
    (es : List KeyEvent) (b : Board) (k : KeySpec)
    → AllUp es
    → typed (ups es) b k ≡ (if modifies es k then false else b k)
unfolding ups
typed-ups [] b k u = refl
typed-ups (e ∷ es) b k u = typed-ups es (strike e b) k u.1 ∙ ground (arith, u.0)

typed-downs :
    (es : List KeyEvent) (b : Board) (k : KeySpec)
    → typed (downs es) b k ≡ (if modifies es k then true else b k)
unfolding downs
typed-downs [] b k = refl
typed-downs (e ∷ es) b k =
    typed-downs es (strike (record e { event_type = keydown }) b) k ∙ ground arith

-- A paste happens while every held modifier is up, and leaves the held modifiers down and all
-- other keys as they were.
paste-modifiers :
    (t : Text) (h : Held) (b : Board) (k : KeySpec)
    → HeldUp h
    → let m = modifiers h in
      let at_paste = typed (ups m) b in
      (paste_text true t h ≡ ups m ++ (pasted t ∷ downs m))
      × (at_paste k ≡ (if modifies m k then false else b k))
      × (typed (paste_text true t h) b k ≡ (if modifies m k then true else b k))
unfolding paste_text
paste-modifiers t h b k u = (
  refl,
  typed-ups (modifiers h) b k (modifiers-AllUp h u),
  ap (λ (f : Board). f k) (typed-append (ups (modifiers h)) (pasted t ∷ downs (modifiers h)) b)
      ∙ (typed-downs (modifiers h) (typed (ups (modifiers h)) b) k
          ∙ ground (arith, typed-ups (modifiers h) b k (modifiers-AllUp h u))),
)

typed-deliver-ups :
    (fs : List Bool) (es : List KeyEvent) (ps : List Out) (b c : Board) (k : KeySpec)
    → AllUp es
    → (b k ≡ true → c k ≡ true)
    → ((gs : List Bool) (d : Board)
        → (d k ≡ true → c k ≡ true)
        → typed (deliver gs ps) d k ≡ true
        → c k ≡ true)
    → typed (deliver fs (ups es ++ ps)) b k ≡ true
    → c k ≡ true
unfolding ups
typed-deliver-ups fs [] ps b c k u h rest t = rest fs b h t
typed-deliver-ups [] (e ∷ es) ps b c k u h rest t = h t
typed-deliver-ups (false ∷ fs) (e ∷ es) ps b c k u h rest t =
    typed-deliver-ups fs es ps b c k u.1 h rest t
typed-deliver-ups (true ∷ fs) (e ∷ es) ps b c k u h rest t =
    typed-deliver-ups fs es ps (strike e b) c k u.1 (λ q. h (ground (arith, u.0, q))) rest t

typed-deliver-downs :
    (fs : List Bool) (es : List KeyEvent) (b : Board) (k : KeySpec)
    → typed (deliver fs (downs es)) b k ≡ true
    → (modifies es k || b k) ≡ true
unfolding downs
typed-deliver-downs [] es b k t = ground (arith, t)
typed-deliver-downs (f ∷ fs) [] b k t = t
typed-deliver-downs (false ∷ fs) (e ∷ es) b k t = ground (arith, typed-deliver-downs fs es b k t)
typed-deliver-downs (true ∷ fs) (e ∷ es) b k t =
    ground (arith, typed-deliver-downs fs es (strike (record e { event_type = keydown }) b) k t)

covers-modifies : (h : Held) (k : KeySpec) → modifies (modifiers h) k ≡ true → covers h k ≡ true
unfolding modifiers
covers-modifies [] k m = cc
covers-modifies ((n, e) ∷ h) k m = ground (arith, covers-modifies h k)

-- However a paste goes on, no key goes down but the held modifiers.
typed-deliver_paste :
    (running : Bool) (fs : List Bool) (t : Text) (h : Held) (b : Board) (k : KeySpec)
    → HeldUp h
    → typed (deliver fs (paste_text running t h)) b k ≡ true
    → (modifies (modifiers h) k || b k) ≡ true
unfolding paste_text
typed-deliver_paste false [] t h b k u q = ground (arith, q)
typed-deliver_paste false (true ∷ []) t h b k u q = ground (arith, q)
typed-deliver_paste false (true ∷ f ∷ fs) t h b k u q = ground (arith, q)
typed-deliver_paste false (false ∷ []) t h b k u q = ground (arith, q)
typed-deliver_paste false (false ∷ f ∷ fs) t h b k u q = ground (arith, q)
typed-deliver_paste true fs t h b k u q =
    let m = modifiers h in
    typed-deliver-ups fs m (pasted t ∷ downs m) b (λ j. modifies m j || b j) k (modifiers-AllUp h u)
      (λ z. ground (arith, z)) after q
  where
    after :
        (gs : List Bool) (d : Board)
        → (d k ≡ true → (modifies (modifiers h) k || b k) ≡ true)
        → typed (deliver gs (pasted t ∷ downs (modifiers h))) d k ≡ true
        → (modifies (modifiers h) k || b k) ≡ true
    after [] d z y = z y
    after (true ∷ gs) d z y = ground (arith, typed-deliver-downs gs (modifiers h) d k y, z)
    after (false ∷ gs) d z y = ground (arith, typed-deliver-downs gs (modifiers h) d k y, z)

deliver_nil : (fs : List Bool) → deliver fs [] ≡ []
deliver_nil [] = refl
deliver_nil (f ∷ fs) = refl

-- One key that is sent, or lost.
typed-deliver_key :
    (running : Bool) (fs : List Bool) (e : KeyEvent) (b : Board) (k : KeySpec)
    → typed (deliver fs (send_key running e)) b k ≡ true
    → (is_keydown e.event_type && spec_eq e.spec k || b k) ≡ true
unfolding send_key
typed-deliver_key true [] e b k q = ground (arith, q)
typed-deliver_key false [] e b k q = ground (arith, q)
typed-deliver_key true (f ∷ fs) e b k q =
    let n = deliver_nil fs in
    let y : typed (if f then sent e ∷ [] else []) b k ≡ true = rw n at q in ground (arith, y)
typed-deliver_key false (f ∷ fs) e b k q =
    let n = deliver_nil fs in
    let y : typed (if f then refused ∷ [] else []) b k ≡ true = rw n at q in ground (arith, y)

deliver_refused : (fs : List Bool) (b : Board) → typed (deliver fs (refused ∷ [])) b ≡ b
deliver_refused [] b = refl
deliver_refused (true ∷ fs) b = rw (deliver_nil fs) refl
deliver_refused (false ∷ fs) b = rw (deliver_nil fs) refl

button_eq_sound : (a b : Button) → held_eq (of_button a) (of_button b) ≡ true → a ≡ b
button_eq_sound a b h = ground arith

held_eq_sound : (m n : HeldName) → held_eq m n ≡ true → m ≡ n
held_eq_sound (of_key s) (of_key t) h = ap of_key (text_eq_sound s t h)
held_eq_sound (of_key s) (of_button b) h = cc
held_eq_sound (of_button a) (of_key t) h = cc
held_eq_sound (of_button a) (of_button b) h = ap of_button (button_eq_sound a b h)

-- Without an emulator nothing reaches a keyboard.
plan_off :
    (fs : List Bool) (n : HeldName) (p : Option Plan) (h : Held) (b : Board)
    → typed (deliver fs (press_plan false n p h).1) b ≡ b
unfolding press_plan paste_text send_key
plan_off fs n none h b = rw (deliver_nil fs) refl
plan_off fs n (some (paste t)) h b = deliver_refused fs b
plan_off fs n (some (send e)) h b = elim (Bool-cases (is_keydown e.event_type)) [
  | inr other ↦ rw other (deliver_refused fs b)
  | inl t ↦ rw t (elim (Bool-cases (leb max_held (length h) && not (holds n h))) [
    | inl full ↦ rw full (deliver_refused fs b)
    | inr free ↦ rw free (deliver_refused fs b)
  ])
]

pub press_key_off :
    (printable : ℕ → Bool) (fs : List Bool) (n : HeldName) (a : Action) (h : Held) (b : Board)
    → typed (deliver fs (press_key printable false n a h).1) b ≡ b
unfolding press_key
press_key_off printable fs n a h b =
    plan_off fs n (plan_of printable n a (holds n h)) (if is_up a then pop n h else h) b

-- While Android runs the first call gets through; else the key is up.
abbrev pub IsThrough : Bool → List Bool → Bool → Type 0
IsThrough false fs is_down = is_down ≡ false
IsThrough true (true ∷ fs) is_down = Unit
IsThrough true _ is_down = ⊥

-- What is asked of a key that goes up.
abbrev pub IsThroughFor : Action → Bool → List Bool → Bool → Type 0
IsThroughFor up running fs is_down = IsThrough running fs is_down
IsThroughFor _ running fs is_down = Unit

module _ (printable : ℕ → Bool) where
  -- Each held key is let go by the event that its name stands for.
  abbrev pub Consistent : Held → Type 0
  Consistent [] = Unit {0}
  Consistent ((n, e) ∷ h) = ((r : Bool) → plan_of printable n up r ≡ some (send e)) × Consistent h

  plan-repeat : (n : HeldName) (r r' : Bool) → plan_of printable n up r ≡ plan_of printable n up r'
  unfolding plan_of
  plan-repeat (of_key k) r r' = browser_key-repeat printable k r r'
  plan-repeat (of_button b) r r' = button_key-repeat b r r'

  plan-LetsGo : (n : HeldName) (r : Bool) → LetsGo (plan_of printable n up r)
  unfolding plan_of
  plan-LetsGo (of_key k) r = browser_key-LetsGo printable k r
  plan-LetsGo (of_button b) r = button_key-LetsGo b r

  plan-sends : (n : HeldName) (r : Bool) → sends (plan_of printable n up r) ≡ true
  unfolding plan_of
  plan-sends (of_key k) r = browser_key-sends printable k r
  plan-sends (of_button b) r = button_key-sends b r

  plan-Answers :
      (n : HeldName) (r r' : Bool)
      → Answers (plan_of printable n down r) (plan_of printable n up r')
  unfolding plan_of
  plan-Answers (of_key k) r r' = browser_key-up printable k r r'
  plan-Answers (of_button b) r r' = button_key-up b r r'

  plan-press :
      (n : HeldName) (r : Bool) (e : KeyEvent)
      → plan_of printable n press r ≡ some (send e)
      → e.event_type ≡ keypress
  unfolding plan_of
  plan-press (of_key k) r e p = browser_key-press printable k r e p
  plan-press (of_button b) r e p = button_key-press b r e p

  -- The entry of a name is the event of its plan.
  plan-entry :
      (m n : HeldName) (e : KeyEvent) (r : Bool)
      → held_eq m n ≡ true
      → ((r : Bool) → plan_of printable m up r ≡ some (send e))
      → plan_of printable n up r ≡ some (send e)
  plan-entry m n e r q c =
      subst (λ x. plan_of printable x up r ≡ some (send e)) (held_eq_sound m n q) (c r)

  covers-pop :
      (n : HeldName) (v : KeyEvent) (r : Bool) (h : Held) (k : KeySpec)
      → Consistent h
      → plan_of printable n up r ≡ some (send v)
      → covers h k ≡ true
      → spec_eq v.spec k ≡ false
      → covers (pop n h) k ≡ true
  covers-pop n v r [] k c p q f = cc
  covers-pop n v r ((m, e) ∷ h) k c p q f = elim (Bool-cases (held_eq m n)) [
    | inl t ↦ rw t (ground (arith, plan-entry m n e r t c.0))
    | inr t ↦ rw t (ground (arith, covers-pop n v r h k c.1 p))
  ]

  covers-put :
      (n : HeldName) (v : KeyEvent) (r : Bool) (h : Held) (k : KeySpec)
      → Consistent h
      → plan_of printable n up r ≡ some (send v)
      → (covers h k || spec_eq v.spec k) ≡ true
      → covers (put n v h) k ≡ true
  covers-put n v r [] k c p q = ground arith
  covers-put n v r ((m, e) ∷ h) k c p q = elim (Bool-cases (held_eq m n)) [
    | inl t ↦ rw t (ground (arith, plan-entry m n e r t c.0))
    | inr t ↦ rw t (ground (arith, covers-put n v r h k c.1 p))
  ]

  pop_absent :
      (n : HeldName) (r : Bool) (h : Held)
      → Consistent h
      → plan_of printable n up r ≡ none
      → pop n h ≡ h
  pop_absent n r [] c p = refl
  pop_absent n r ((m, e) ∷ h) c p = elim (Bool-cases (held_eq m n)) [
    | inl t ↦ absurd (ground (arith, plan-entry m n e r t c.0))
    | inr t ↦ rw (t, pop_absent n r h c.1 p)
  ]

  pop-Consistent : (n : HeldName) (h : Held) → Consistent h → Consistent (pop n h)
  pop-Consistent n [] c = tt
  pop-Consistent n ((m, e) ∷ h) c = elim (Bool-cases (held_eq m n)) [
    | inl t ↦ rw t (c.1)
    | inr t ↦ rw t (c.0, pop-Consistent n h c.1)
  ]

  put-Consistent :
      (n : HeldName) (v : KeyEvent) (h : Held)
      → ((r : Bool) → plan_of printable n up r ≡ some (send v))
      → Consistent h
      → Consistent (put n v h)
  put-Consistent n v [] p c = (p, tt)
  put-Consistent n v ((m, e) ∷ h) p c = elim (Bool-cases (held_eq m n)) [
    | inl t ↦ rw t (
      (λ r.
          subst (λ x. plan_of printable x up r ≡ some (send v)) (sym (held_eq_sound m n t)) (p r)),
      c.1,
    )
    | inr t ↦ rw t (c.0, put-Consistent n v h p c.1)
  ]

  pub Consistent-HeldUp : (h : Held) → Consistent h → HeldUp h
  Consistent-HeldUp [] c = tt
  Consistent-HeldUp ((n, e) ∷ h) c = (plan-LetsGo n false e (c.0 false), Consistent-HeldUp h c.1)

  length-pop-le : (n : HeldName) (h : Held) → length (pop n h) ≤ length h
  length-pop-le n [] = omega arith
  length-pop-le n ((m, e) ∷ h) = ground (arith, length-pop-le n h)

  length-put :
      (n : HeldName) (v : KeyEvent) (h : Held)
      → length (put n v h) ≡ (if holds n h then length h else suc (length h))
  length-put n v [] = refl
  length-put n v ((m, e) ∷ h) = ground (arith, length-put n v h)

  -- What holds of the held keys and the emulator's keyboard, at the key `k`.
  pub record Inv (k : KeySpec) (h : Held) (b : Board) : Type 0 where
    pub consistent : Consistent h
    pub bounded : length h ≤ 32
    pub covered : b k ≡ true → covers h k ≡ true

  plan-Inv :
      (running : Bool) (fs : List Bool) (k : KeySpec) (n : HeldName) (p : Option Plan) (h : Held)
      (b : Board)
      → ((e : KeyEvent)
          → p ≡ some (send e)
          → e.event_type ≡ keydown
          → (r : Bool) → plan_of printable n up r ≡ some (send (record e { event_type = keyup })))
      → Inv k h b
      → let (h', os) = press_plan running n p h in Inv k h' (typed (deliver fs os) b)
  unfolding press_plan
  plan-Inv running fs k n none h b d v = rw (deliver_nil fs) v
  plan-Inv running fs k n (some (paste t)) h b d v = record {
    consistent = v.consistent;
    bounded = v.bounded;
    covered = λ q. ground (
      arith,
      v.covered,
      covers-modifies h k,
      typed-deliver_paste running fs t h b k (Consistent-HeldUp h v.consistent) q,
    );
  }
  plan-Inv running fs k n (some (send e)) h b d v =
      let key = typed-deliver_key running fs e b k in
      elim (Bool-cases (is_keydown e.event_type)) [
        | inr other ↦ rw other (record {
          consistent = v.consistent;
          bounded = v.bounded;
          covered = λ q. v.covered (ground (arith, other, key q));
        })
        | inl t ↦
            let kd : e.event_type ≡ keydown = ground (arith, t) in
            let lift : KeyEvent = record e { event_type = keyup } in
            rw t (elim (Bool-cases (leb max_held (length h) && not (holds n h))) [
              | inl full ↦ rw full (rw (deliver_refused fs b) v)
              | inr free ↦ rw free (record {
                consistent = put-Consistent n lift h (d e refl kd) v.consistent;
                bounded = ground (arith, free, length-put n lift h);
                covered = λ q.
                    covers-put n lift false h k v.consistent (d e refl kd false)
                      (ground (arith, v.covered, key q));
              })
            ])
      ]

  -- While Android runs the event gets through; else no key is down.
  pop-Inv :
      (running : Bool) (fs : List Bool) (k : KeySpec) (n : HeldName) (r : Bool) (h : Held)
      (b : Board)
      → IsThrough running fs (b k)
      → Inv k h b
      → let (h', os) = press_plan running n (plan_of printable n up r) (pop n h) in
        Inv k h' (typed (deliver fs os) b)
  unfolding press_plan
  pop-Inv running fs k n r h b a v = go (plan_of printable n up r) refl running fs a
    where
      go :
          (p : Option Plan)
          → plan_of printable n up r ≡ p
          → (running : Bool) (fs : List Bool) → IsThrough running fs (b k)
          → let (h', os) = press_plan running n p (pop n h) in Inv k h' (typed (deliver fs os) b)
      go none q running fs a = rw (deliver_nil fs, pop_absent n r h v.consistent q) v
      go (some (paste t)) q running fs a = absurd (ground (arith, q, plan-sends n r))
      go (some (send e)) q false fs a = rw (plan-LetsGo n r e q) (record {
        consistent = pop-Consistent n h v.consistent;
        bounded = omega (arith, length-pop-le n h);
        covered = λ s.
            absurd (ground (arith, a, typed-deliver_key false fs e b k s, plan-LetsGo n r e q));
      })
      go (some (send e)) q true [] a = absurd a
      go (some (send e)) q true (false ∷ fs) a = absurd a
      go (some (send e)) q true (true ∷ fs) a =
          rw (plan-LetsGo n r e q, deliver_nil fs)
            (record {
              consistent = pop-Consistent n h v.consistent;
              bounded = omega (arith, length-pop-le n h);
              covered = λ s.
                  covers-pop n e r h k v.consistent q
                    (ground (arith, v.covered, s, plan-LetsGo n r e q))
                    (ground (arith, s, plan-LetsGo n r e q));
            })

  -- A key message keeps at most 32 keys held, and every key that is down at the emulator is one
  -- that the session will let go.
  pub press_key-Inv :
      (running : Bool) (fs : List Bool) (k : KeySpec) (n : HeldName) (a : Action) (h : Held)
      (b : Board)
      → IsThroughFor a running fs (b k)
      → Inv k h b
      → let (h', os) = press_key printable running n a h in Inv k h' (typed (deliver fs os) b)
  unfolding press_key
  press_key-Inv running fs k n up h b g v = pop-Inv running fs k n (holds n h) h b g v
  press_key-Inv running fs k n press h b g v =
      plan-Inv running fs k n (plan_of printable n press (holds n h)) h b
        (λ e p t r. absurd (ground (arith, plan-press n (holds n h) e p, t))) v
  press_key-Inv running fs k n down h b g v =
      plan-Inv running fs k n (plan_of printable n down (holds n h)) h b
        (λ e p t r. plan-Answers n (holds n h) r e p t) v
