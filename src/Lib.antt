-- ===== src/Lib.antt =====
-- The orchestrator of scout-audit, a static analyser of Soroban contracts, and one of its detectors.
-- The orchestrator is the crate apps/cargo-scout-audit/crates/cargo-scout-audit, whose src directory
-- the paths below start from where nothing else is said.
-- `run_scout` reads the options and the project's metadata, selects the detectors, loads what they
-- say of themselves, runs them under the compiler, and turns the compiler's JSON messages into the
-- status of each crate and a list of findings.
--
-- Base: the names, lists, results, texts and maps that the models share.
-- Json, Metadata, Paths: `serde_json::Value`, the part of `cargo_metadata::Metadata` that is read,
--   and the file system with its paths. JSON text (`Serde`), path functions (`PathOps`) and the disk
--   (`FileSystem`) are parameters.
-- Finding: scout/finding.rs and util/json.rs, the accessors of one compiler message.
-- Graph: util/dependencies.rs. `DependencyGraph` is its struct; `new`, `depends_on` and
--   `list_dependants` are its methods. The two `while` loops are `walk` on a stack with fuel
--   n * n + 1 for n packages: every package is expanded at most once and pushes at most n.
-- Crates: scout/core/findings.rs, the status of the crates and the splitting of the findings.
-- PostProcessing: scout/core/post_processing.rs, findings against warnings of unnecessary allows.
-- Lints: util/detectors_info.rs, the store of lints and its loading from detector libraries, with
--   the calls that hand out and free memory as a list of events.
-- Selection: util/detectors.rs and config/mod.rs, the choice of the detectors that run.
-- Cli: cli_args/mod.rs, the toolchain, the kind of project, the arguments and their validation.
-- Table: scout/output/table.rs, the summary table: its rows, the widths of its columns and its counts.
--   `pad` has its width as fuel: each round adds one byte.
-- Filters: scout/output/table.rs, the functions that the templates call: colours, cells, the order of
--   the columns and the separator. `COLOR_MAP` is an argument.
-- Report: scout/output/raw_report.rs and the types of scout/output/report.rs: the numbered entries,
--   the categories and the summary. `u32` numbers wrap at 2 ^ 32.
-- Projects: scout/core/project_info.rs, the packages that are analysed, and the paths in
--   scout/detectors/configuration.rs.
-- AuthFlow: the detector nightly/2026-05-28/detectors/soroban/missing-new-admin-auth, whose source
--   files stand in its src directory. AuthFlow.Mir is what it reads of rustc: bodies as data, bit
--   sets as an interface. AuthFlow.Domain, Places, Analysis and Summary are mir_auth_flow.rs and
--   types.rs; AuthFlow.Functions is `check_crate_post` of lib.rs, its loop over the summaries on fuel
--   of one turn for each signer that may be promised, and one more. AuthFlow.Engine states what the
--   data-flow engine of `rustc_mir_dataflow` is relied on for, as a hypothesis on its results, and
--   what a run of a body is.
-- Libraries: scout/detectors/library.rs, the libraries of detectors and `deduplicate_libraries`. The
--   orders in which its two hash maps are walked are parameters.
-- Run: run.rs and result.rs, the run from the options to the findings, with the early returns, the
--   tags of `set_severity` and the FAIL file. The record `Stages` has what the parts without a model
--   answer: cargo, dylint, the building and loading of detectors, the writers of reports. The panic
--   of `unwrap` on a line that is no JSON is an error here.
-- Tests: concrete inputs, and runs of the definitions on them.
--
-- A `HashMap` is an association list, and where the program iterates over a hashed set or map the
-- order is a parameter. Errors are constructors without the wording of their messages. `usize` is
-- 64 bits wide. Printing, logging, the network, processes, rendering of the reports and
-- the other detectors, which work on the compiler's data, are not modelled; nor is the panic of a bit
-- set at an index outside of it.
pub mod Base
pub mod Json
pub mod Finding
pub mod Metadata
pub mod Graph
pub mod Crates
pub mod PostProcessing
pub mod Libraries
pub mod Lints
pub mod Paths
pub mod Selection
pub mod Cli
pub mod Tests
pub mod Table
pub mod Report
pub mod Filters
pub mod Projects
pub mod AuthFlow
pub mod Run
