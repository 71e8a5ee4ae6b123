-- ===== src/Examples/Backend.antt =====
-- Operations on the device at concrete inputs.
use android_appliance.Base.{◌≡◌, refl, none, some, [], ◌∷◌, ◌++◌, false}
use android_appliance.Base.Text.{Text, codes, is_number, decimal}
use android_appliance.Base.{◌-◌, Option, List, All, OnSome, map, if◌then◌else◌}
use android_appliance.Base.Int.{pos}
use android_appliance.Base.Text.{text_eq, is_digit}
use android_appliance.Backend.Nodes.{Attributes, Item, groups, compact}
use android_appliance.Backend.Centers.{IsListed, compact-IsListed}
use android_appliance.Backend.Shell.{quote, plain, begun, read_words, words}
use android_appliance.Backend.Words.{read_words-quote}
use android_appliance.Backend.Apps.{start_command}
use android_appliance.Backend.Files.{pull, push, list_files}
use android_appliance.Backend.Traces.{AllCalls, Balanced}
use android_appliance.Backend.Leases.{files_Balanced}
use android_appliance.Backend.Safety.{TransferCall, transfer_calls}

abbrev evil : Text
evil = codes "/sdcard/a'b; reboot"

read_words-quote_example :
    read_words plain none (quote evil ++ codes " x")
    ≡ read_words plain (some (begun none ++ evil)) (codes " x")
read_words-quote_example = read_words-quote none evil (codes " x")

two_words : words (codes "ls " ++ quote evil) ≡ some (codes "ls" ∷ evil ∷ [])
unfolding quote
two_words = refl

transfer_calls_example :
    AllCalls (TransferCall evil none) (pull evil)
    × AllCalls (TransferCall evil (some (codes "x"))) (push evil (some (codes "x")))
transfer_calls_example = transfer_calls evil (some (codes "x"))

files_Balanced_example :
    Balanced false (pull evil)
    × Balanced false (push evil none)
    × Balanced false (list_files is_number decimal evil)
files_Balanced_example = files_Balanced evil none is_number decimal

-- A dollar sign makes the shell expand the name of an activity.
inner_class : words (start_command (codes "com.example/.Main$Inner")) ≡ none
inner_class = refl

-- A button with its bounds.
abbrev button : Attributes
button key =
    if text_eq key (codes "bounds")
    then some (codes "[10,20][30,61]")
    else if text_eq key (codes "clickable")
    then some (codes "true")
    else none

abbrev listed_items : Option (List Item) → List Item
listed_items none = []
listed_items (some items) = items

button_listed :
    map (λ it. it.center) (listed_items (compact is_digit (λ c. c - 48) (button ∷ [])))
    ≡ (pos 20, pos 40) ∷ []
unfolding compact groups
button_listed = refl

compact-IsListed_example : OnSome (All IsListed) (compact is_digit (λ c. c - 48) (button ∷ []))
compact-IsListed_example = compact-IsListed is_digit (λ c. c - 48) (button ∷ [])
