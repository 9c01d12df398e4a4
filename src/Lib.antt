-- ===== src/Lib.antt =====
-- A verification library of the smart-home server: the logic of its automations and of the
-- services that they stand on, as functions with their theorems.
--
-- The program is a web application (app.py) that runs app instances (apps/) by the events of its
-- hubs. An event reaches an instance by the router; the instance decides from the device cache,
-- its settings and its memo, and sends commands by a client of the hub, each call of which goes
-- through a circuit breaker (services/circuit_breaker.py). The scheduler calls the instances back,
-- and a change of the house's mode reaches all of them. Instances are paused and resumed, and the
-- database keeps what a restart needs.
--
-- Files:
--   Prelude: the names of the libraries, tests on numbers, lists, and `Dict` for Python's dict.
--   Breaker: services/circuit_breaker.py. The record is the object; `before_call`, `record_failure`
--     and `record_success` are the critical sections under its lock. Breaker/Calls composes them as
--     `call_sync` and `call_async` do, and takes any sequence of sections for overlapping calls;
--     Breaker/Registry is `get_breaker`. Invariant, Trip, Bursts and Probe are the theorems.
--   Rules: apps/rules/schema.py and apps/rules/interpreter.py. Rules/Host is the app that the
--     interpreter runs in: its pause flag, its device cache and its commands are functions, of the
--     number of readings or of the commands sent before, since other threads change them. Prelude/Strip
--     is `str.strip`. Rules/Interpreter is `execute_event`; Plan, Pause, Toggle, Debounce and Presets
--     are the theorems.
--   Fan: apps/fan_automation/app.py. Fan/Readings and Fan/Decide are `_decide`; Fan/Tokens and
--     Fan/Apply the commands, the events of the fans and the mode change. Humid, Ramp, Runout, Bounds,
--     Manual, Release and Echo are the theorems.
--   Pairing: services/matter_pairing_lock.py, on the row of
--     psql/migrations/013_matter_pairing_lock_global_mutex.sql. Exclusion and Takeover are the theorems.
--   Lifecycle: apps/base/pause_resume.py, the pause and resume of services/instance_manager.py, and the
--     overrides in apps/advanced_motion_lighting (memoization.py, mode_change.py). Seeding, Sync,
--     ModePause and AutoResume are the theorems.
--   Motion: apps/advanced_motion_lighting/motion_detection.py. Anchor, Stuck and Countdown are the
--     theorems.
--   Lighting: apps/advanced_motion_lighting, the files keep_switches/enforcement.py and
--     event_handlers/switch_override.py, on the marks of Lifecycle, and Lighting/Timeout timeout.py.
--     Override, Enforcement and Directed are theorems on the keep switches.
--   Commander: services/device_commander.py with models/command.py. The record is the status table and the
--     table of the verification breaker; Commander/Execute is `_execute_command_sync`. Seen from it, a hub
--     is a record of what its sends and polls give. Verified, Status and Backoff are the theorems, and
--     Overrides those on Lighting's handler of switch events, which reads the status.
--   Settings: services/settings_resolver.py. `read_through` and `write_through` are the getters and setters
--     on the slice of a tier, and the tables of the database are part of the state. Coherence, Cascade,
--     Refine and Writes are the theorems. Python's number and JSON conversions are a parameter.
--   Lights: apps/advanced_motion_lighting, the folder light_control and
--     event_handlers/level_color_override.py. Lights/Switches is switch_commands.py with the colors of
--     color_and_dim.py, and Lights/Control is controller.py; what a cycle reads may depend on the commands
--     sent before. Their child modules and Dimming are the theorems;
--     those of Confirmed are on the lights with Commander as what answers their commands.
--   Humidifier: apps/humidifier/app.py. `Room` is what one run of `master` reads. Reasons tells the command of
--     a run from its raw readings; Commands and Warnings are the theorems.
--   Router: services/webhook_router.py. The record has the cache of labels and the queues; a worker is the
--     queue that it drains, and one round of it a step. What the database answers, and which instances run,
--     comes with each event, which is routed in one step; a round has whether `on_event` raises. Router/Labels is the label of a device.
--     Fifo, Resolve and Cache are the theorems.
--   Instances: services/instance_manager.py. The record has the tables, the running apps, each as the row
--     that it was made from, and the Router, whose workers a stop ends; a call takes how the calls of the
--     database in it end. Instances/Subscriptions is `_create_subscriptions`, Instances/Edits the calls that
--     change an instance, Instances/Boot the start of all and the watchdog. Their children, Fresh, Steps and
--     Wired are the theorems.
--   Devices: services/device_cache.py. The record has the memory and the table; a call takes whether the
--     database answers. View, Coherent and Blind are the theorems.
--   Power: apps/power_management/app.py. The record is the runtime state with the commands sent. Recovery,
--     Window, Worst and Cooldown are the theorems.
-- The modules named Scenarios hold the theorems at concrete inputs, and tests.
--
-- Conventions: a time is a natural number on the clock that the code reads, in a unit
-- that makes the times of the code whole (seconds, milliseconds or microseconds), and a test on a difference,
-- `now - t >= d`, is written `t + d <= now`, also when the clock stands before `t`. Numbers of settings
-- are the whole numbers, not negative, that the forms admit. Loops are recursions on the lists that they
-- go through, or on the rounds left where the code counts them; there is no fuel. An exception is a
-- value: `none`, or a constructor of the result. The log is left out, but for the report of each
-- command of the rules and the count of the humidifier's warnings.
--
-- Not modelled: the web routes and the pages (app.py, templates, static, frontend), the clients
-- of hubs, televisions, speakers and of the Matter service, which are input and output; the main
-- loop of the motion-lighting app and its buttons, the router's mode changes and the screen-time
-- planner, which are left for later.
pub mod Prelude
pub mod Breaker
pub mod Rules
pub mod Fan
pub mod Pairing
pub mod Lifecycle
pub mod Motion
pub mod Lighting
pub mod Commander
pub mod Settings
pub mod Lights
pub mod Humidifier
pub mod Router
pub mod Instances
pub mod Devices
pub mod Power
