-- ===== src/Lib.antt =====
-- A verification library for kairos-deploy, whose Python scripts guard a deployment's durable
-- state: they inspect, recover and qualify it, and refuse whatever they cannot prove.
--
-- Base: shared helpers (Boolean tests, lists over native numbers, results, Python's bytes, dicts,
-- sets, sorting, integers and text, JSON values), in the form in which the scripts use them.
--
-- Aof (scripts/runtime_epoch_redis_aof.py): the bounded inventory of a Redis append-only file.
-- Aof/Tokens holds `_stream_id`, `_unsigned`, `_valid_group_args` and `_valid_claim`; Aof/Reader
-- the cursor `_RespReader`; Aof/Scan the loop body of `inventory_bytes`, its local variables as a
-- record and a function for each branch, with Aof/Scan/Tally on the names behind its counters;
-- Aof/Inventory the loop, the checks around it and the report. The loop has fuel, one more than the
-- bytes of the file, which is enough since every command takes a byte. SHA-256, `json.loads` and
-- `json.dumps` are parameters (Aof/Commands). Reading the file (`inventory_aof`), the ACL helpers
-- and the command line are not modelled.
--
-- Epoch (scripts/runtime_epoch_worker.py): parts of the worker that keeps a runtime epoch's bars
-- current. Epoch/Catchup holds `required_bars` and `bounded_runtime_end`, which bound a catch-up
-- round; Epoch/Failures `source_wait_reason` and the handler in `recover` that picks the exception
-- to raise from a group, with fuel for its loop over the leaves, one more than the exceptions of
-- the group; Epoch/Circuit the counters of `SourceCircuit` and the pause it starts from;
-- Epoch/Redis `runtime_redis_call`, where what each attempt meets (the stop event, the reply, the
-- clock) is a parameter; Epoch/Outbox `flush` and its `PUBLICATION_LUA`, where a request, a reply
-- or a database update may be lost at any row, and the digest of a payload and the ids of Redis are
-- parameters. The Lua table that Redis stores as JSON is a pair here. Epoch/Transport holds the
-- loop of `EpochRedisTransport.subscribe`, over a list of rounds, each with what the stop event,
-- the clock and Redis gave it, and Epoch/Transport/History the history of an outage that its
-- deadline is held against; the argument checks and `ack` are not modelled. SQL and connections are
-- not modelled.
--
-- Canary (scripts/paper_canary_acceptance.py): `evaluate_evidence`. Canary/Evidence holds its
-- checks of the shape of the evidence, a JSON value (Base/Json); Canary/Judge its tests on the
-- scope, the recovery and each trade; Canary/Report the loop over the trades, the reasons and the
-- report, without the fields that never change. Floats are a parameter; an integer that none holds
-- raises an error that the code does not catch. The SQL of the collector and the command line are
-- not modelled.
--
-- Cold (scripts/cold_redis_acceptance.py): Cold/Resp holds `RESPReader` and the request of
-- `_resp_command`, over the parts that the socket receives; Cold/Scan the loop of `_inspect_stream`
-- over the pages of a stream, and its state. The loop has fuel, the entries that are scanned at
-- most, which is enough since every page but the last takes an entry. The replies to XRANGE,
-- `json.loads` and the digest are parameters. Cold/Manifest and Cold/Layout hold
-- `_persistence_layout`, from the names of the files and the bytes of a manifest
-- (Cold/Layout/Listing has what its lines list), without hashes and diagnostics. Connecting, the
-- INFO probe and the Docker steps around them are not modelled.
--
-- Buildkit (scripts/buildkit_resource_gate.py): `cgroup_path` and `parse_workers`, which prove from
-- text that the workers of a build server stay in its control group. Which characters Unicode calls
-- decimal digits is a parameter. The other parsers of the gate and Docker are not modelled.
--
-- Soak (scripts/soak_reconnect.py): Soak/Health holds `health_errors`, Soak/Loop `run_soak`, whose
-- loop runs over a list of passes, each with what the clock, the restart command and the fetch of
-- the metrics gave it, and fails if the list ends before the loop does. Floats are a parameter.
-- `parse_metrics` and the command line are not modelled.
--
-- The other scripts, the containers and the monitoring are not modelled.
pub mod Base
pub mod Aof
pub mod Epoch
pub mod Soak
pub mod Buildkit
pub mod Canary
pub mod Cold
