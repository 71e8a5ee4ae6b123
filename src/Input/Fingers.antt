-- ===== src/Input/Fingers.antt =====
-- The contacts of a session against the fingers that are down at the emulator.
use android_appliance.Base.{
  ℕ, suc, ◌≤◌, ◌<◌, ◌≡◌, refl, ◌∙◌, inl, inr, Option, none, some, Bool, true, false, ◌||◌, List, [],
  ◌∷◌, ◌++◌, map, arith, leb, ◌==◌, if◌then◌else◌, length, length-append, Option-cases,
}
use android_appliance.Base.Int.{pos}
use android_appliance.Base.Float.{Floats}
use android_appliance.Input.Touch.{
  Touch, contact, is_pressed, at_least_one-pos, Screen, put_touch, put_touches, fmin,
}
use android_appliance.Input.Pointers.{
  Ident, Contact, Pointers, Point, find, remove, move, point, add_touch, touches, lift, release,
}

module _ {F : Type 0} where
  -- Whether a contact has the identifier.
  abbrev pub fingers : List (Contact F) → ℕ → Bool
  fingers [] i = false
  fingers (c ∷ cs) i = c.identifier == i || fingers cs i

  -- No two contacts share an identifier, and all are below the next one.
  abbrev pub Valid : ℕ → List (Contact F) → Type 0
  Valid n [] = Unit {0}
  Valid n (c ∷ cs) = (c.identifier < n) × (fingers cs c.identifier ≡ false) × Valid n cs

  fingers-move :
      (k : Ident) (x y : F) (cs : List (Contact F)) (i : ℕ)
      → fingers (move k x y cs) i ≡ fingers cs i
  fingers-move k x y [] i = refl
  fingers-move k x y (c ∷ cs) i = ground (arith, fingers-move k x y cs i)

  move-Valid :
      (k : Ident) (x y : F) (n : ℕ) (cs : List (Contact F)) → Valid n cs → Valid n (move k x y cs)
  move-Valid k x y n [] v = tt
  move-Valid k x y n (c ∷ cs) v =
      ground (arith, move-Valid k x y n cs v.2, fingers-move k x y cs c.identifier)

  length-move : (k : Ident) (x y : F) (cs : List (Contact F)) → length (move k x y cs) ≡ length cs
  length-move k x y [] = refl
  length-move k x y (c ∷ cs) = ground (arith, length-move k x y cs)

  fingers_of_find :
      (k : Ident) (cs : List (Contact F)) (c : Contact F)
      → find k cs ≡ some c
      → fingers cs c.identifier ≡ true
  fingers_of_find k [] c e = cc
  fingers_of_find k (d ∷ cs) c e = ground (arith, fingers_of_find k cs c)

  fingers-remove :
      (k : Ident) (n : ℕ) (cs : List (Contact F)) (c : Contact F) (i : ℕ)
      → Valid n cs
      → find k cs ≡ some c
      → fingers (remove k cs) i ≡ (if c.identifier == i then false else fingers cs i)
  fingers-remove k n [] c i v e = cc
  fingers-remove k n (d ∷ cs) c i v e =
      ground (arith, fingers-remove k n cs c i v.2, fingers_of_find k cs c)

  remove-le :
      (k : Ident) (cs : List (Contact F)) (i : ℕ)
      → fingers cs i ≡ false
      → fingers (remove k cs) i ≡ false
  remove-le k [] i h = refl
  remove-le k (d ∷ cs) i h = ground (arith, remove-le k cs i)

  remove-Valid : (k : Ident) (n : ℕ) (cs : List (Contact F)) → Valid n cs → Valid n (remove k cs)
  remove-Valid k n [] v = tt
  remove-Valid k n (c ∷ cs) v = ground (arith, remove-Valid k n cs v.2, remove-le k cs c.identifier)

  length-remove-le : (k : Ident) (cs : List (Contact F)) → length (remove k cs) ≤ length cs
  length-remove-le k [] = omega arith
  length-remove-le k (c ∷ cs) = ground (arith, length-remove-le k cs)

  fingers-append :
      (cs : List (Contact F)) (c : Contact F) (i : ℕ)
      → fingers (cs ++ c ∷ []) i ≡ (if c.identifier == i then true else fingers cs i)
  fingers-append [] c i = ground arith
  fingers-append (d ∷ cs) c i = ground (arith, fingers-append cs c i)

  fingers_above : (n : ℕ) (cs : List (Contact F)) → Valid n cs → fingers cs n ≡ false
  fingers_above n [] v = refl
  fingers_above n (c ∷ cs) v = ground (arith, fingers_above n cs v.2)

  append-Valid :
      (n : ℕ) (cs : List (Contact F)) (c : Contact F)
      → c.identifier ≡ n
      → Valid n cs
      → Valid (suc n) (cs ++ c ∷ [])
  append-Valid n [] c e v = ground arith
  append-Valid n (d ∷ cs) c e v =
      ground (arith, append-Valid n cs c e v.2, fingers-append cs c d.identifier)

  -- The identifiers go up while the session does nothing.
  pub Valid-mono : (m n : ℕ) (cs : List (Contact F)) → m ≤ n → Valid m cs → Valid n cs
  Valid-mono m n [] h v = tt
  Valid-mono m n (c ∷ cs) h v = (omega arith, v.1, Valid-mono m n cs h v.2)

  -- At most ten contacts, as the emulator has slots.
  pub record Inv (n : ℕ) (cs : List (Contact F)) : Type 0 where
    pub valid : Valid n cs
    pub bounded : length cs ≤ 10

abbrev put_option : Option Touch → Screen → Screen
put_option none s = s
put_option (some t) s = put_touch t s

module _ (fl : Floats) (zero_up : fl.lt (fl.of_int (pos 0)) (fl.of_int (pos 0)) ≡ false) where
  open fl use {F, of_int}

  contact_pressed :
      (i : ℕ) (x y p : F) → is_pressed fl p ≡ true → leb 1 (contact fl i x y p).pressure ≡ true
  unfolding contact
  contact_pressed i x y p h = rw h (
      ground (
        arith,
        at_least_one-pos (fl.round (fl.mul (fmin fl p (of_int (pos 1))) (of_int (pos 1024)))),
      ))

  contact_up : (i : ℕ) (x y : F) → (contact fl i x y (of_int (pos 0))).pressure ≡ 0
  unfolding contact
  contact_up i x y = rw zero_up

  contact_id : (i : ℕ) (x y p : F) → (contact fl i x y p).identifier ≡ i
  unfolding contact
  contact_id i x y p = refl

  abbrev entry : ℕ → Point F → Contact F
  entry n p = record { key = p.id; identifier = n; x = p.x; y = p.y }

  point-Inv :
      (n : ℕ) (cs : List (Contact F)) (p : Point F)
      → Inv n cs
      → let a = point fl n cs p in Inv a.next_id a.contacts
  unfolding point
  point-Inv n cs p v = elim (Option-cases (find p.id cs)) [
    | inl e ↦
        rw (e, point)
          (ground
            (arith, append-Valid n cs (entry n p) refl v.valid, length-append cs (entry n p ∷ [])))
    | inr (c, e) ↦
        rw (e, point)
          (ground (
            arith,
            move-Valid p.id p.x p.y n cs v.valid,
            remove-Valid p.id n cs v.valid,
            length-move p.id p.x p.y cs,
            length-remove-le p.id cs,
          ))
  ]

  point-fingers :
      (n : ℕ) (cs : List (Contact F)) (p : Point F) (s : Screen) (i : ℕ)
      → Inv n cs
      → s i ≡ fingers cs i
      → let a = point fl n cs p in put_option a.result s i ≡ fingers a.contacts i
  unfolding point
  point-fingers n cs p s i v h = elim (Option-cases (find p.id cs)) [
    | inl e ↦
        rw (e, point)
          (ground (
            arith,
            fingers-append cs (entry n p) i,
            contact_pressed n p.x p.y p.pressure,
            contact_id n p.x p.y p.pressure,
          ))
    | inr (c, e) ↦
        rw (e, point)
          (ground (
            arith,
            contact_pressed c.identifier p.x p.y p.pressure,
            contact_id c.identifier p.x p.y p.pressure,
            contact_id c.identifier p.x p.y (of_int (pos 0)),
            contact_up c.identifier p.x p.y,
            fingers-move p.id p.x p.y cs i,
            fingers-remove p.id n cs c i v.valid e,
            fingers_of_find p.id cs c e,
          ))
  ]

  -- A message of touches keeps the identifiers apart and the contacts within ten, and the fingers
  -- that are down at the emulator stay those of the contacts.
  pub touches-fingers :
      (n : ℕ) (cs : List (Contact F)) (ps : List (Point F)) (s : Screen) (i : ℕ)
      → Inv n cs
      → s i ≡ fingers cs i
      → let a = touches fl n cs ps in
        Inv a.next_id a.contacts × (put_touches a.result s i ≡ fingers a.contacts i)
  unfolding touches
  touches-fingers n cs [] s i v h = (v, h)
  touches-fingers n cs (p ∷ ps) s i v h =
      let a = point fl n cs p in
      let (w, g) =
        touches-fingers a.next_id a.contacts ps (put_option a.result s) i (point-Inv n cs p v)
          (point-fingers n cs p s i v h) in
      (w, put_touches-add a.result (touches fl a.next_id a.contacts ps).result s i ∙ g)
    where
      put_touches-add :
          (o : Option Touch) (ts : List Touch) (s : Screen) (i : ℕ)
          → put_touches (add_touch fl o ts) s i ≡ put_touches ts (put_option o s) i
      put_touches-add none ts s i = refl
      put_touches-add (some t) ts s i = refl

  lifts :
      (cs : List (Contact F)) (s : Screen) (i : ℕ)
      → put_touches (map (lift fl) cs) s i ≡ (if fingers cs i then false else s i)
  lifts [] s i = refl
  lifts (c ∷ cs) s i =
      lifts cs (put_touch (lift fl c) s) i
      ∙ ground
          (arith, contact_id c.identifier c.x c.y (of_int (pos 0)), contact_up c.identifier c.x c.y)

  -- The release at the end of a session lifts every finger of the session and forgets it; it
  -- changes no other finger.
  pub release-lifts :
      (p : Pointers F) (s : Screen) (i : ℕ)
      → let (q, ts) = release fl p in
        (q.contacts ≡ [])
        × (q.right ≡ false)
        × (put_touches ts s i ≡ (if fingers p.contacts i then false else s i))
  unfolding release
  release-lifts p s i = (refl, refl, lifts p.contacts s i)
