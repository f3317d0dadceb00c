-- ===== src/Lib.antt =====
-- A model of chipchamp's core: the policy that decides what an agent may read, write, spend and
-- report as done (chipchamp/policy), the records of jobs and the regressions (chipchamp/jobs), the
-- coverage that they collect (chipchamp/coverage), the state of an agent's run and its transcript
-- (chipchamp/agent), the paths that its tools may use (chipchamp/tools), the queries on waveforms
-- (chipchamp/waves), the file lists of a project (chipchamp/filelist.py), the clock domains and the cones of a
-- module (chipchamp/design), the frontier of a sweep (chipchamp/physical), the comparison of a core's trace with a reference (chipchamp/riscv), and the
-- compiler of register maps (chipchamp/regmap).
--
-- The parts and how they interact. `PolicyEngine` (Policy/Engine.antt for chipchamp/policy/engine.py)
-- owns an access list and the paths that are protected or generated. `can_read` and `can_write`
-- bring a path to its canonical form (Policy/Canonical.antt, `canonical`) and ask the access list
-- (Policy/Acl.antt for policy/acl.py). `check` and `validate_done` classify a change set
-- (Policy/Diff.antt for policy/diff.py, Policy/Classify.antt with Classify/Clocks.antt for
-- policy/classify.py), scan it for the ways to turn the gates green without the work
-- (Policy/Antigaming.antt for policy/antigaming.py), ask the autonomy rules (Policy/Autonomy.antt for
-- policy/autonomy.py), and evaluate the gates of its classes on the evidence (Policy/Gates.antt for
-- policy/gates.py: Gates/Data.antt holds `Evidence`, and Gates/Sims.antt, Gates/Checks.antt,
-- Gates/Fpga.antt and Gates/Diagnosis.antt the branches of `_eval_one`). The evidence holds job
-- records (Jobs/Record.antt for jobs/record.py). The ledger of a task's spending is
-- Policy/Budgets.antt, for policy/budgets.py. Policy/Waivers.antt (policy/waivers.py) marks the
-- diagnostics that the lint gate leaves out.
--
-- Jobs/Regression.antt (jobs/regression.py) counts and clusters the records of a regression;
-- Coverage/Model.antt and Coverage/Service.antt (coverage/model.py, coverage/service.py) merge the
-- coverage and compare it with a baseline; Coverage/Impact.antt (`recorded_lines` of
-- coverage/impact.py) takes the lines of an edit back to the recorded source. During a run of the
-- agent, Agent/Tracker.antt and Agent/Runs.antt (agent/runstate.py) keep what its checks said of the
-- tree and which files it wrote,
-- Agent/Retry.antt (agent/retry.py) says which failed calls of the model are tried again, and
-- Agent/Router.antt (agent/router.py and agent/model_profiles.py) which model is asked next.
-- Jobs/Farm.antt (jobs/farm.py) wraps the command of a job for a scheduler, and Jobs/Checkpoint.antt
-- (jobs/checkpoint.py) keeps the cases and the charges of a regression that may be resumed.
--
-- A tool resolves each path by `ws_path` (Tools/Paths.antt for tools/paths.py), which asks the policy
-- engine about the name and about its target. The messages of a run are in Agent/Transcript.antt
-- (`transcript_size` of agent/loop.py); Agent/WorkingSet.antt with Agent/Digest.antt
-- (agent/working_set.py) take the bodies of old results out of them, and Agent/Session.antt
-- (agent/session.py) answers the calls that were interrupted.
--
-- Design.antt (design/model.py) holds what the queries on a module read, and Design/Domains.antt
-- (design/domains.py) infers its clock domains and their crossings. Design/Cone.antt and
-- Design/Slice.antt (design/cone.py, `extract_cone`) walk along the statements that feed a signal, with
-- the names that Design/Names.antt (`signal_names` of design/parser.py) finds in an expression. Physical/Sweep.antt
-- (physical/sweep.py, `pareto`) marks the frontier of a sweep.
--
-- The sources of a project are collected by Filelist.antt (filelist.py, `parse_filelist`) and
-- Filelist/Sources.antt (`resolve_sources` and the two YAML manifests).
--
-- Riscv/Trace.antt (riscv/trace.py) finds where a core leaves its reference. Regmap.antt
-- (regmap/compiler.py) validates a register map; Regmap/Verilog.antt, Regmap/Header.antt and
-- Regmap/Table.antt print it (`_gen_sv`, `_gen_header`, `_gen_md`), with the names and ranges of
-- Regmap/Names.antt, and Regmap/Outputs.antt is `generate`.
--
-- A dump is parsed to signals and their changes (Waves/Vcd.antt for waves/vcd.py); the store
-- (Waves/Store.antt and Waves/Compare.antt for waves/store.py) finds values, windows, unknown values
-- and the first divergence of two runs by binary search (Waves/Bisect.antt, Python's `bisect`), and
-- Waves/When.antt the time when an expression holds.
--
-- The Python library stands in the top modules: texts are lists of code points (Text.antt,
-- Lines.antt), `fnmatch` is Fnmatch.antt, `re` is Regex.antt for the patterns of the policy, and
-- dictionaries with text keys keep their insertion order (Dict.antt). Case is that of ASCII.
--
-- Mutable objects are passed as values and returned changed. Amounts of time and money are exact
-- fixed fractions in place of floats. `os.path.realpath` and the names of the dot directories are
-- parameters, as are the calendar, the relative paths of the waivers, and what JSON reads and prints in
-- the working set. Loops recurse on their lists; the binary search, the translation of a glob and the two
-- scanners of identifiers recurse on a length, and each round of theirs shortens what is left. A file
-- list is parsed on fuel for the depth of its includes: more than the number of files is enough.
--
-- Not modelled: messages for the human, git, files, processes, language models, the search of the
-- dump's header by regular expressions (its matches are the parser's input), and the expressions of
-- `WaveStore.when`, which Python's `eval` evaluates: whether one holds is a parameter, and so are the
-- blocks that difflib's `SequenceMatcher` finds.
pub mod Prelude
pub mod Text
pub mod Filelist
pub mod Fnmatch
pub mod Regex
pub mod Riscv
pub mod Regmap
pub mod Tools
pub mod Gather
pub mod Lines
pub mod Design
pub mod Dict
pub mod Jobs
pub mod Physical
pub mod Policy
pub mod Waves
pub mod Agent
pub mod Coverage
