-- ===== src/Lib.antt =====
-- systemd-ops, an operations engine for systemd: a command line and a server over one crate that
-- reads units, and that writes only through a plan and its application. A plan is sealed in a
-- token under an HMAC key; the application verifies the token, observes the unit again, and runs
-- one verb. What a caller may see is bounded by scopes, what it may write by a prefix of globs.
--
-- Base, with Base/Table, Base/Lists, Base/Text and Base/Results, holds what the parts share:
-- tests and lists on the native numbers, texts as lists of code points (their UTF-8 by
-- `as_bytes`), and the results of fallible code, whose error is the text of its `BackendError`.
-- Json: the values of serde_json that the code builds and reads; Json/Envelope is src/json.rs.
-- Sha256: src/sha256.rs, with 32-bit words as numbers below 2 ^ 32 and wrapping sums written out.
-- Token: src/token.rs, with the encodings in Token/Base64 and Token/Hex, and the sealed plans in
-- Token/Plan. The text of a JSON value is serde_json's, and a parameter.
-- Systemd: the parts of src/systemd.rs that compute: unit globs, the write prefix, unit names,
-- scopes and grants, timestamps; Systemd/Runs has the runs of systemctl, with their answers as a
-- parameter and the runs made as a history, and Systemd/Units what is asked of a unit by them;
-- Systemd/Blocks and Systemd/Boot read the output of systemctl and systemd-analyze.
-- Config: the configuration of src/config.rs that the other parts read; Config/Load loads it.
-- Write: src/write.rs; Write/Actions has the control actions and Write/Control their plans and
-- applications, whose runs of systemctl are kept in the history; Write/Authoring has the verbs
-- and snapshots of authoring plans.
-- Operations: parts of src/operations.rs that compute: command lines (Operations/Exec), the
-- fields of a specification and its schedule (Operations/Fields), stems and contexts
-- (Operations/Context), health (Operations/Health), specifications (Operations/Spec,
-- Operations/ParseSpec), the unit files that are rendered (Operations/Render) and read
-- (Operations/Meta), and the application of authoring plans to them (Operations/Author).
-- Files: the files of `std::fs` as a map from places; which place a path names, links followed or
-- not, and what the system refuses, are parameters. So is what a run of systemctl does to files.
-- Scope: src/scope.rs, its ranks of health; Scope/Manifest has the manifests and their checks,
-- Scope/Discovery where a manifest is found, Scope/View and Scope/Aggregate the view of a scope,
-- with the joins of automation and operators as a record of operations.
-- Operator: src/operator.rs. Operator has the texts of reports, Operator/Surface the state that is
-- kept for an operation and its JSON, Operator/Parse its reading, Operator/Iterations the
-- operations on it; Operator/Session is the abstract session that these implement. Operator/Store
-- chooses, reads and writes the file of a surface, with the home of an operation of src/automation.rs.
-- Operator/Atomic is about the writing.
-- Automation: parts of src/automation.rs: the records of an operation with an agent and their
-- checks (Automation/Records), what of it is current (Automation/Currency), and the semantic
-- states of a scope's operations (Automation/States).
--
-- Bounds and fuel: the loop of `glob_match` runs on a fuel of the product of the two lengths,
-- each plus one, since it never tries a star twice at one place; the loop of `strip_tree_prefix`
-- on the length of its line, since each turn takes a connector off; the walk of `discover` on
-- the length of its path, since a parent is shorter; the derivation of semantic states on one
-- turn more than there are operations, since no unit is visited twice at a time; the padding
-- loop of the hash has a fuel of 64 zeros, of which it needs fewer; a number prints with the 20
-- digits that a `u64` has at most. Sums of `u64` wrap, as in a release build.
--
-- Not modelled: the terminal screen (src/tui.rs), the servers (src/mcp.rs, src/varlink.rs), the
-- command line (src/bin), and the calls of the manager over D-Bus, which have no definition in
-- this code; of operations the planning of authoring plans and the views; the commands on the
-- state of operators; of automation the files, requests and deployments.
pub mod Automation
pub mod Base
pub mod Config
pub mod Files
pub mod Json
pub mod Operations
pub mod Operator
pub mod Scope
pub mod Sha256
pub mod Systemd
pub mod Token
pub mod Write
