-- ===== src/Turn/Config.antt =====
-- turn.py: config_text, the turnserver.conf of the relay.
use android_appliance.Base.{Option, none, some, List, [], ◌∷◌, ◌++◌, if◌then◌else◌, ℕ}
use android_appliance.Base.Text.{Text, codes, contains}

abbrev pub newline : ℕ
newline = 10

-- The first IPv4 address, else the first one.
abbrev pub first_ipv4 : List Text → Option Text
first_ipv4 [] = none
first_ipv4 (a ∷ as') = let rest = first_ipv4 as' in if contains b':' a then rest else some a

abbrev pub head_of : List Text → Option Text
head_of [] = none
head_of (a ∷ as') = some a

abbrev pub or_first : Option Text → List Text → Option Text
or_first none addresses = head_of addresses
or_first (some a) addresses = some a

unfoldable pub relay_address : List Text → Option Text
relay_address addresses = or_first (first_ipv4 addresses) addresses

abbrev pub relay_lines : Option Text → List Text
relay_lines none = []
relay_lines (some []) = []
relay_lines (some (c ∷ a)) = (codes "relay-ip=" ++ (c ∷ a)) ∷ []

abbrev pub allowed : List Text → List Text
allowed [] = []
allowed (a ∷ as') = (codes "allowed-peer-ip=" ++ a) ∷ allowed as'

abbrev pub relay_settings : Text → List Text
relay_settings key =
    codes "use-auth-secret"
    ∷ (codes "static-auth-secret=" ++ key)
    ∷ codes "realm=android-appliance"
    ∷ codes "fingerprint"
    ∷ codes "no-tls"
    ∷ codes "no-tcp-relay"
    ∷ codes "no-multicast-peers"
    ∷ codes "no-software-attribute"
    ∷ codes "stale-nonce=600"
    ∷ codes "max-allocate-lifetime=60"
    ∷ codes "user-quota=4"
    ∷ codes "total-quota=80"
    ∷ codes "denied-peer-ip=0.0.0.0-255.255.255.255"
    ∷ codes "denied-peer-ip=::-ffff:ffff:ffff:ffff:ffff:ffff:ffff:ffff"
    ∷ []

abbrev pub file_settings : Text → Text → List Text
file_settings userdb pidfile =
    (codes "userdb=" ++ userdb)
    ∷ (codes "pidfile=" ++ pidfile)
    ∷ codes "log-file=stdout"
    ∷ codes "simple-log"
    ∷ []

unfoldable pub config_lines : Text → List Text → Text → Text → List Text
unfolding relay_address
config_lines key addresses userdb pidfile =
    codes "listening-port=3478"
    ∷ codes "min-port=49152"
    ∷ codes "max-port=49251"
    ∷ (relay_lines (relay_address addresses)
        ++ (relay_settings key ++ (allowed addresses ++ file_settings userdb pidfile)))

-- "\n".join(lines)
abbrev pub join_lines : List Text → Text
join_lines [] = []
join_lines (l ∷ []) = l
join_lines (l ∷ m ∷ ls) = l ++ newline ∷ join_lines (m ∷ ls)

unfoldable pub config_text : Text → List Text → Text → Text → Text
unfolding config_lines
config_text key addresses userdb pidfile =
    join_lines (config_lines key addresses userdb pidfile) ++ newline ∷ []
