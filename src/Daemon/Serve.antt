-- ===== src/Daemon/Serve.antt =====
-- The commands of the main program and the life of the daemon (__main__.py: main, serve, _health). The
-- files, sockets and servers are effects: what serve does with them is a list, in order.
use android_appliance.Base.{ℕ, Option, none, some, Bool, List, [], ◌∷◌, ◌++◌, if◌then◌else◌}
use android_appliance.Config.Load.{Config, Checked, config_error, value_error, accepts}

pub data Command : Type 0 where
  serve_command healthcheck check_config mcp_command : Command

pub data Action : Type 0 where
  makes_directory takes_lock clears_uploads : Action
  opens_listeners starts_turn starts_mcp starts_serving starts_watchdog : Action
  waits stops_android stops_serving ends_mcp closes_client closes_hub stops_turn ends_watchdog :
      Action
  removes_socket : Action

abbrev pub starts : List Action
starts =
    clears_uploads ∷ opens_listeners ∷ starts_turn ∷ starts_mcp ∷ starts_serving ∷ starts_watchdog
    ∷ waits ∷ []

-- Android stops before the listeners, which answer until then.
abbrev pub ends : List Action
ends =
    stops_android ∷ stops_serving ∷ ends_mcp ∷ closes_client ∷ closes_hub ∷ stops_turn
    ∷ ends_watchdog ∷ removes_socket ∷ []

-- serve: whether the lock is free, and whether a signal came and not the end of a listener. The result
-- is the exit status.
unfoldable pub serve : Bool → Bool → List Action × ℕ
serve free signalled =
    if free
    then (makes_directory ∷ takes_lock ∷ (starts ++ ends), if signalled then 0 else 1)
    else (makes_directory ∷ takes_lock ∷ [], 1)

-- _health, and its exceptions, which are none.
abbrev pub health_status : Option Bool → ℕ
health_status none = 1
health_status (some ok) = if ok then 0 else 1

-- The outcomes that main depends on.
pub record Outcome : Type 0 where
  pub lock_free : Bool
  pub signalled : Bool
  pub health : Option Bool

abbrev pub run_command : Command → Outcome → ℕ
run_command check_config o = 0
run_command serve_command o = (serve o.lock_free o.signalled).1
run_command mcp_command o = 0
run_command healthcheck o = health_status o.health

-- main, from the configuration that load gives. A ValueError is not caught: the interpreter ends with
-- status 1.
unfoldable pub main : Command → Checked Config → Outcome → ℕ
unfolding serve
main c (config_error key) o = 1
main c value_error o = 1
main c (accepts cfg) o = run_command c o
