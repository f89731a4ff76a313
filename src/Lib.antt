-- ===== src/Lib.antt =====
-- Battery lab simulator: cyclers with simulated cells, an orchestrator that runs schedules on them over
-- Modbus, a watchdog that raises alerts, an ingester of the telemetry, thermal chambers, an exporter of old
-- telemetry to files, and an analysis of completed cycles.
--
-- The parts and how they interact. A cycler process holds the channels of one chassis. A channel has a
-- cell model, a command and a safety latch. Three kinds of loops turn on the channels in one event loop:
-- the cell's physics, the safety loop of each channel, and the chassis watchdog; the Modbus server
-- dispatches register writes into the channels and mirrors their state back into the registers. The
-- orchestrator reads the registers, decides whether a step of a schedule is over, keeps its journal of
-- steps in a database, and writes commands. The watchdog polls all of them and raises each alert on the
-- rising edge of its condition. The ingester joins the cyclers' telemetry with the contexts that the
-- orchestrator publishes, and stores it in batches. The exporter writes each hour of stored telemetry to
-- a file, records it in a ledger and drops the old chunks. The analytics compute the features of a cycle
-- when the orchestrator reports it as complete. A chamber has a Modbus block of its own and publishes its
-- temperature to the cyclers and the watchdog.
--
-- Which file models what (paths from the repository's root):
--   Models           libs/batterylab/src/batterylab/models.py
--   Modbus           libs/batterylab/src/batterylab/modbus_maps.py
--   Chemistry, Cell  chemistry.py, ecm.py and degradation.py of the same library
--   Schedule         schedule.py of the same library; Schedule/Bench is BenchConfig._normalize, and
--                    Schedule/Load the validation and the load of a file
--   Hosts            _parse_cycler_hosts of the orchestrator's and the watchdog's main.py
--   Cycler           services/cycler/src/cycler: Channel is channel.py, Safety is safety.py, and Block,
--                    Swap, Registers and Mirror are modbus_server.py. Events puts all that happens to a
--                    channel into one sequence, in the order in which the event loop runs it. Telemetry
--                    is telemetry.py and ambient.py, and Boot is _make_channels of main.py
--   Orchestrator     services/orchestrator/src/orchestrator: Client is cycler_client.py, Executor is
--                    executor.py, Tables holds its SQL statements and the two queues of events.py and
--                    context.py, Build, Resume and Kickoff are what main.py does with one experiment, Gather is
--                    its asyncio.gather over the chassis, Bench the sweeps and the executor's turn,
--                    Boot the boot and the loop, Publisher the
--                    loops that hand the two queues to the broker, Sweep is the grouping by
--                    chassis in main.py and channel_keepalive.py, and Heartbeat is heartbeat.py
--   Watchdog         services/watchdog/src/watchdog: Dedupe, Alerts, Chassis and Chamber are the files of
--                    these names, Fleet is fleet_monitor.py and heartbeat_monitor.py, and Session is main.py
--   Ingester         services/ingester/src/ingester/main.py: Reads is the reading of a message, and the
--                    file itself the join and the batches
--   Chamber          services/chamber/src/chamber: thermal.py, modbus_server.py and main.py
--   Export           services/parquet_export/src/parquet_export: the file itself has the tables and
--                    the statements of export.py, Hour is export_hour, and Pass is main.py. Batch,
--                    Stream, Outcome, Scan, Kept, Loop, Passes, Fixed and Complete are lemmas and theorems
--   Analytics        services/analytics/src/analytics: Features is features.py, Pipeline the pure part
--                    of pipeline.py, Tables its statements, Process
--                    the rest and main.py. Replay and Anomaly are
--                    lemmas and theorems
--   Examples         the theorems at concrete inputs
--   Prelude          the shared names, and the interface of floats
--
-- State. A record stands for each class, a data type for each enumeration. A method is a function that
-- takes the object and returns it changed. A turn of a loop has no await between its reads and its
-- writes, so it is one step. The orchestrator's coroutines are actions: functions from the state to a
-- result, or an exception, and a state, so what was written before an exception stays. An environment
-- says of every call, by its number, whether it fails and what it answers; a theorem for all
-- environments is one for all patterns of failure. A sweep over the bench is a list of coroutines, one for
-- each chassis, and a list of turns says which goes on next; a turn is the visit of one experiment, which
-- reads and writes only its own rows, its own chassis and the queues. A theorem for all lists of turns is
-- one for all orders of the visits.
--
-- Parameters. Floats are an interface: the operations that the program calls, with laws of IEEE 754 that
-- hold of NaN and the infinities too. The register store of pymodbus is an interface: a register holds
-- what was last stored. Fixed point numbers and functions instantiate them. Packing a
-- float is total there; Python raises an OverflowError for one that a float32 cannot carry. What the
-- exporter uses of TimescaleDB, of the calendar and of Parquet is the interface Outside: a sort of rows is
-- a permutation, a chunk is an hour and is dropped whole. What the analytics use of numpy and scipy is the
-- interface Numerics. What Python's int, str, json and datetime make of a message is the interface
-- Python. YAML, pydantic, asyncpg and aiomqtt are not modelled. Register addresses are taken at
-- channels below 200, where the
-- chassis registers begin. The loop over the batches of an hour runs on fuel, one more than the rows of
-- the hour; each fetch before the last takes a row at least, so that is enough. All other loops are
-- modelled by their turns, or by recursion on the list of what happens.
--
-- Not modelled: the start of the processes and their environment, logging, health checks, cancellation at
-- shutdown, and visits of two chassis that overlap within one experiment's visit.
pub mod Prelude
pub mod Models
pub mod Modbus
pub mod Chemistry
pub mod Cell
pub mod Cycler
pub mod Schedule
pub mod Orchestrator
pub mod Watchdog
pub mod Ingester
pub mod Chamber
pub mod Export
pub mod Analytics
pub mod Hosts
mod Examples
