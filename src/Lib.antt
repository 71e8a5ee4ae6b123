-- ===== src/Lib.antt =====
-- The android-appliance daemon (appliance/): it runs one Android emulator in a container and serves
-- it over HTTP, a WebSocket dashboard session and MCP.
--
-- Parts and files:
-- Base: tests on numbers, lists, integers, texts as code points, and floats as a record of
--   operations with no laws.
-- Supervisor: appliance/supervisor.py, the lifecycle state machine. Types has its state, Activity
--   the idle time and the crash history, Lifecycle the stretches of the boot, stop and watcher
--   tasks between two waits, Requests the calls, Events all of them as one step function over a
--   history of timed events, Device the wait for adb and the file of the state. Invariant, Waiters,
--   Progress, Policy and Authorized prove.
-- Input: appliance/input.py. Touch has the touch points and the emulator's screen, Gestures the
--   timed gestures, Pointers the fingers of a session, Keys the key tables. Fingers and KeyLaws
--   prove.
-- Session: appliance/session.py. Keyboard has the held keys and the paste, Limits the rate limit,
--   Viewers the sessions of the hub and their streams, Messages and Dispatch the checks of messages
--   up to what goes to a lane or to the pointers, Outbox the lanes and the outbox, Scroll the wheel
--   task; Keys, Release, Rate, Counting, Fields, Safety, Delivery and Lifting prove.
-- Bridge: appliance/webrtc.py, the life of the video streams. Streams has the tasks of a stream and
--   the set, Answer the answer and the candidate for a stream that nobody watches, Relay the
--   messages of the emulator; Limits, Lines, Accepts and Relayed prove.
-- Auth: appliance/auth.py, the token, login links, session cookies and the brake on failed logins.
--   State has the operations, Secrets the files of the secrets with the steps of a write; Laws and
--   Keeping prove.
-- Avd: appliance/avd.py and the record of the AVD in appliance/supervisor.py. Ini has the managed
--   keys of config.ini, Data the directory with the first-boot marker and the record in memory and on
--   disk; Laws, Configure, Steps and Safety prove. Which system image there is and the registry are parameters.
-- Turn: appliance/turn.py. Relay has the user names, the log window and the delay between two runs,
--   Config the text of turnserver.conf; Laws and Peers prove. The process of turnserver is not in it.
-- Backend: appliance/backend.py, the operations on the device, as trees of calls that the answers of
--   the device go through. Shell has the quoting, the patterns and a reader of POSIX shell words,
--   which stands for the shell of the device; Calls the calls and the lease of _use, Apps and Files
--   the operations, Nodes the compact list of the screen's nodes. Words, Traces, Leases, Safety,
--   Packages and Centers prove. The XML reader is a parameter: a node is its attributes.
-- Emulator: appliance/emulator.py, the process of qemu. Log has the watcher of its log and the files
--   of logs, Process the GPU, the locks, the command line and the steps of a stop; LogLaws and Stop
--   prove. The patterns HANG_LINE and SOFTWARE_GL are parameters.
-- Api: appliance/api.py. Gate has the decision of the authentication middleware and the login pages,
--   which use Auth, Body the reading of bodies, uploads and query values, Values the values of
--   JSON bodies, Routes what each handler asks of the backend, Responses the error statuses and the
--   headers; Access, Bounds, Checked, Touches, Demands and Hardened prove.
-- Daemon: appliance/__main__.py. Watchdog has the connections that wait too long, Serve the order in
--   which the daemon starts and ends and the exit statuses; Silence proves.
-- Mcp: appliance/mcp_server.py. Spool has the temporary file with the transfers of
--   appliance/client.py, Tools the transfers of files and the shell, Boot the wait for a boot; Bounds
--   and Timely prove.
-- Config: appliance/config.py. Fields has the file format and the tests of fields, Load the
--   configuration; Laws and Valid prove. The environment and the files are functions.
-- Grpc: appliance/grpc_client.py. Stream has the shared input stream with its calls, Keys the pacing of
--   key events with its bound; Calls proves. The single requests are not in it.
-- The daemon's parts meet in the supervisor: a session and the backend reach the emulator through
--   it, the API and the MCP server through the backend, and the bridge belongs to the sessions.
-- Examples: the theorems at concrete inputs.
--
-- Correspondence: a function of the source has the definition of its name, without the leading
-- underscore. A method takes the record of its object and returns the new one; a coroutine is cut
-- at its waits. Time is a number of ticks that the event loop passes in. What another program or
-- library does (qemu, adb, gRPC, coroutines, float arithmetic) comes as an event or a parameter.
-- A loop runs on its list, so no definition takes fuel; the attempts of a screen dump are counted
-- down from the ten of the source.
--
-- Not modelled: the text of log and error messages, the HTTP framework and its routes, the
-- command-line client, the tools of the MCP server that only forward a call, HTML pages, the
-- conversion of screenshots and the parser of XML, the generated gRPC stubs, and process and file
-- system calls beyond their results.
mod Base
pub mod Supervisor
pub mod Input
pub mod Session
pub mod Bridge
pub mod Turn
pub mod Auth
pub mod Avd
pub mod Backend
pub mod Emulator
pub mod Api
pub mod Config
pub mod Grpc
pub mod Daemon
pub mod Mcp
mod Examples
