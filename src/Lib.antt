-- ===== src/Lib.antt =====
-- Sacrysty: a verification development of the repository's Python programs.
--
-- The programs. A custody adapter starts a worker in a process group of its own, gives it a sealed
-- envelope, and admits its answer; it cleans the group up by the shared termination routine and reads
-- the answer with the shared strict JSON decoder. The conformance checks read JSON files with the
-- same decoder and admit them by their own rules.
--
-- The files, by their modules.
--   Prelude is for names, lists, integers and texts that all parts share.
--   ProcessGroups is for sacrysty_runtime/process_groups.py. The operating system is a record of oracles
--   over the trace of the calls made; a Popen handle is its return code and that trace. Errors are
--   constructors, seconds are whole nanoseconds.
--   Json is for the values that decoding makes, and Python's == on them.
--   StrictJson is for sacrysty_runtime/strict_json.py, with the UTF-8 decoder and the scanner of json.loads
--   that it calls.
--   Custody is for adapters/fido_custody.py. Environment is _scrub_environment, Configure the constructor,
--   Exchange _bounded_communicate, Message the admission of the worker's answer, and Unwrap the
--   method unwrap with the caller's signals; Launcher is the program that runs in the child first.
--   Conformance is for the checks: Probe is conformance/check-probe-result.py, Inventory is
--   conformance/check-source-inventory.py, and Envelope is conformance/check-domain-model.py.
--   Evidence is for conformance/sq_evidence_process.py, which runs one selected process. Files is the
--   disk and the errors, Receipt the class CleanupReceipt, Trace the runner's trace, Setup what comes
--   before the process (_selected_environment and the head of run_process), Watch the loop over the
--   process and its streams, and Run all of run_process with its except clause, and main.
--   WorkerProbe is for docs/research/fido-worker-interfaces/evidence/probe.py: Base64 is Python's
--   base64, Stanza the plugin's read_stanza and write_stanza, Phase read_phase and fixture_ok,
--   Cleanup cleanup_group with category and enum_value, and Capture the reading threads and finish.
--
-- Bounds and fuel. The loops over the clock in ProcessGroups run on fuel; enough fuel exists for a
-- clock that advances. The JSON scanner's fuel is computed from the length of its input and is
-- enough. The turns of an exchange are a list that the world gives; a list that is too short
-- leaves the exchange unfinished, which is no result; so are the turns of a run in Evidence. A
-- stanza's body is read with more fuel than there are bytes. The schema audit and the matcher of
-- Envelope run on fuel, and their end of fuel is an ending of its own.
--
-- What is a parameter. The replies of the operating system, the readiness of pipes, the signals
-- that arrive, the paths that the file system denies, what a selected process leaves on the disk,
-- SHA-256, Git and the clone of a bundle, and regular expressions.
--
-- What is not modelled. The command line that starts the launcher, the recursion limit of Python,
-- temporary directories and printing; the order in which a set is iterated is the order in which
-- it is written. Of conformance/sq_evidence_process.py the launcher's text, SIGINT, the signal
-- mask and handler, the serialized environment and errors of writes to open files. Of the probe
-- under docs/research the sealed copy of age, purge_output and main. The test programs are not modelled.
pub mod Prelude
pub mod ProcessGroups
pub mod Json
pub mod StrictJson
pub mod Custody
pub mod Conformance
pub mod Evidence
pub mod WorkerProbe
