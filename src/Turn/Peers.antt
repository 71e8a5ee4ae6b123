-- ===== src/Turn/Peers.antt =====
-- The peers that the turnserver.conf of the relay lets through, as one reads its text line by line
-- (turn.py: config_text).
use android_appliance.Base.{
  ◌≡◌, refl, sym, ap, ◌∙◌, inl, inr, Option, none, some, false, List, [], ◌∷◌, ◌++◌, ◌==◌,
  if◌then◌else◌, arith, All, All-append, append_assoc, append_nil, Bool-cases,
}
use android_appliance.Base.Text.{Text, codes, contains}
use android_appliance.Turn.Config.{
  newline, first_ipv4, head_of, or_first, relay_address, relay_lines, allowed, relay_settings,
  file_settings, config_lines, join_lines, config_text,
}

-- The full lines of a text. The first argument is the line that has begun.
abbrev pub lines_of : Text → Text → List Text
lines_of begun [] = []
lines_of begun (c ∷ s) =
    let fresh = lines_of [] s in
    let same = lines_of (begun ++ c ∷ []) s in if c == newline then begun ∷ fresh else same

-- What follows the key in a line that starts with it.
abbrev pub value_of : Text → Text → Option Text
value_of [] s = some s
value_of (c ∷ key) [] = none
value_of (c ∷ key) (d ∷ s) = let rest = value_of key s in if c == d then rest else none

abbrev pub if_some : Option Text → List Text → List Text
if_some none rest = rest
if_some (some v) rest = v ∷ rest

-- The values of all lines with the key.
abbrev pub values : Text → List Text → List Text
values key [] = []
values key (l ∷ ls) = if_some (value_of key l) (values key ls)

abbrev pub IsOneLine : Text → Type 0
IsOneLine s = contains newline s ≡ false

line_read :
    (begun s t : Text)
    → IsOneLine s
    → lines_of begun (s ++ newline ∷ t) ≡ (begun ++ s) ∷ lines_of [] t
line_read begun [] t h = ap (λ l. l ∷ lines_of [] t) (sym (append_nil begun))
line_read begun (c ∷ s) t h =
    ground (arith, line_read (begun ++ c ∷ []) s t, append_assoc begun (c ∷ []) s)

-- The lines that are joined are those that are read.
lines_read :
    (l : Text) (ls : List Text)
    → All IsOneLine (l ∷ ls)
    → lines_of [] (join_lines (l ∷ ls) ++ newline ∷ []) ≡ l ∷ ls
lines_read l [] h = line_read [] l [] h.0
lines_read l (m ∷ ls) h =
    rw
      (
        append_assoc l (newline ∷ join_lines (m ∷ ls)) (newline ∷ []),
        line_read [] l (join_lines (m ∷ ls) ++ newline ∷ []) h.0,
      )
      (ap (λ r. l ∷ r) (lines_read m ls h.1))

append-IsOneLine : (s t : Text) → IsOneLine s → IsOneLine t → IsOneLine (s ++ t)
append-IsOneLine [] t h k = k
append-IsOneLine (c ∷ s) t h k = ground (arith, append-IsOneLine s t)

abbrev OnSome : Option Text → Type 0
OnSome none = Unit
OnSome (some a) = IsOneLine a

first_ipv4-OnSome :
    (addresses : List Text) → All IsOneLine addresses → OnSome (first_ipv4 addresses)
first_ipv4-OnSome [] h = tt
first_ipv4-OnSome (a ∷ as') h = elim (Bool-cases (contains b':' a)) [
  | inl e ↦ rw e (first_ipv4-OnSome as' h.1)
  | inr e ↦ rw e (h.0)
]

head_of-OnSome : (addresses : List Text) → All IsOneLine addresses → OnSome (head_of addresses)
head_of-OnSome [] h = tt
head_of-OnSome (a ∷ as') h = h.0

or_first-OnSome :
    (o : Option Text) (addresses : List Text)
    → OnSome o
    → All IsOneLine addresses
    → OnSome (or_first o addresses)
or_first-OnSome none addresses h k = head_of-OnSome addresses k
or_first-OnSome (some a) addresses h k = h

relay_lines-IsOneLine : (o : Option Text) → OnSome o → All IsOneLine (relay_lines o)
relay_lines-IsOneLine none h = tt
relay_lines-IsOneLine (some []) h = tt
relay_lines-IsOneLine (some (c ∷ a)) h = (append-IsOneLine (codes "relay-ip=") (c ∷ a) refl h, tt)

allowed-IsOneLine :
    (addresses : List Text) → All IsOneLine addresses → All IsOneLine (allowed addresses)
allowed-IsOneLine [] h = tt
allowed-IsOneLine (a ∷ as') h =
    (append-IsOneLine (codes "allowed-peer-ip=") a refl h.0, allowed-IsOneLine as' h.1)

relay_settings-IsOneLine : (key : Text) → IsOneLine key → All IsOneLine (relay_settings key)
relay_settings-IsOneLine key h = (
  refl,
  (
    append-IsOneLine (codes "static-auth-secret=") key refl h,
    (
      refl,
      (refl, (refl, (refl, (refl, (refl, (refl, (refl, (refl, (refl, (refl, (refl, tt))))))))))),
    ),
  ),
)

file_settings-IsOneLine :
    (userdb pidfile : Text)
    → IsOneLine userdb
    → IsOneLine pidfile
    → All IsOneLine (file_settings userdb pidfile)
file_settings-IsOneLine userdb pidfile h k = (
  append-IsOneLine (codes "userdb=") userdb refl h,
  (append-IsOneLine (codes "pidfile=") pidfile refl k, (refl, (refl, tt))),
)

-- Without line breaks in what goes into it, the text has the lines of the configuration.
config_text-lines :
    (key userdb pidfile : Text) (addresses : List Text)
    → IsOneLine key
    → IsOneLine userdb
    → IsOneLine pidfile
    → All IsOneLine addresses
    → lines_of [] (config_text key addresses userdb pidfile)
      ≡ config_lines key addresses userdb pidfile
unfolding config_text config_lines relay_address
config_text-lines key userdb pidfile addresses hk hu hp ha = lines_read _ _ (
  refl,
  (
    refl,
    (
      refl,
      All-append IsOneLine (relay_lines (relay_address addresses)) _
          (relay_lines-IsOneLine (relay_address addresses)
            (or_first-OnSome (first_ipv4 addresses) addresses (first_ipv4-OnSome addresses ha) ha))
          (All-append IsOneLine (relay_settings key) _ (relay_settings-IsOneLine key hk) (
            All-append IsOneLine (allowed addresses) _ (allowed-IsOneLine addresses ha)
              (file_settings-IsOneLine userdb pidfile hu hp))),
    ),
  ),
)

abbrev pub allow_key : Text
allow_key = codes "allowed-peer-ip="

abbrev pub deny_key : Text
deny_key = codes "denied-peer-ip="

values-allowed :
    (addresses : List Text) (ls : List Text)
    → values allow_key ls ≡ []
    → values deny_key ls ≡ []
    → (values allow_key (allowed addresses ++ ls) ≡ addresses)
      × (values deny_key (allowed addresses ++ ls) ≡ [])
values-allowed [] ls p d = (p, d)
values-allowed (a ∷ as') ls p d =
    let rest = values-allowed as' ls p d in (ap (λ l. a ∷ l) rest.0, rest.1)

values-relay_lines :
    (relay : Option Text) (ls : List Text)
    → (values allow_key (relay_lines relay ++ ls) ≡ values allow_key ls)
      × (values deny_key (relay_lines relay ++ ls) ≡ values deny_key ls)
values-relay_lines none ls = (refl, refl)
values-relay_lines (some []) ls = (refl, refl)
values-relay_lines (some (c ∷ a)) ls = (refl, refl)

-- Both whole address ranges.
abbrev pub all_ranges : List Text
all_ranges =
    codes "0.0.0.0-255.255.255.255" ∷ codes "::-ffff:ffff:ffff:ffff:ffff:ffff:ffff:ffff" ∷ []

-- Where neither the key, the two paths nor an address has a line break: whoever reads the text of the
-- configuration line by line finds as allowed peers exactly the addresses given, in order, and as
-- denied ones exactly the two ranges of all addresses.
pub relay_peers :
    (key userdb pidfile : Text) (addresses : List Text)
    → IsOneLine key
    → IsOneLine userdb
    → IsOneLine pidfile
    → All IsOneLine addresses
    → let ls = lines_of [] (config_text key addresses userdb pidfile) in
      (values allow_key ls ≡ addresses) × (values deny_key ls ≡ all_ranges)
unfolding config_lines
relay_peers key userdb pidfile addresses hk hu hp ha =
    let files = file_settings userdb pidfile in
    let rest = values-allowed addresses files refl refl in
    let relay =
      values-relay_lines (relay_address addresses)
        (relay_settings key ++ (allowed addresses ++ files)) in
    rw (config_text-lines key userdb pidfile addresses hk hu hp ha) (
      relay.0 ∙ rest.0,
      relay.1
          ∙ ap
              (λ l.
                codes "0.0.0.0-255.255.255.255"
                ∷ codes "::-ffff:ffff:ffff:ffff:ffff:ffff:ffff:ffff"
                ∷ l)
              rest.1,
    )
