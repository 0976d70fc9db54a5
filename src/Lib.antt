-- ===== src/Lib.antt =====
-- Project Guardian: a firewall between an autonomous agent and what it may touch.
--
-- Every action of an agent is put into one form (crates/guardian-core), decided by a deterministic
-- policy (crates/guardian-policy), recorded in a hash-chained log (crates/guardian-audit), and only then
-- let through, by the gateway for tool calls (crates/guardian-mcp-gateway) or by the proxy for HTTP
-- requests (crates/guardian-proxy). Secrets stay with the broker (crates/guardian-broker), whose vault
-- replaces protected values by tokens. The daemon (crates/guardian-daemon) keeps the queue of what a
-- human has to approve and serves the gateway on a local socket; the checker (crates/guardian-checker)
-- explains an action to the human, the sandbox (crates/guardian-sandbox) contains a command, and the
-- command line (crates/guardian-cli) puts the crates together.
--
-- Files and what they model:
-- - Common: texts as UTF-8 bytes, floats as their bit patterns, maps as association lists, results.
-- - Core: guardian-core/src/lib.rs. Json is `serde_json::Value`, Wire the JSON form of an action.
-- - Crypto: the ed25519 and hexadecimal crates as interfaces, with the laws that are relied on.
-- - Policy: guardian-policy/src. Schema is schema.rs, Caps and Engine are engine.rs: `run_rules` is the
--   loop of `evaluate`, `on_match` its body, `apply_floor` its end. Spec says the same as a fold. Pack
--   is pack.rs, over a directory that does not change while it is read; Seed is its secret seeds.
-- - Audit.Log: guardian-audit/src/lib.rs. A `Database` is the value of the three tables; `append` is one
--   transaction. Audit.Report: guardian-audit/src/report.rs.
-- - Broker: guardian-broker/src/{capability,lib,credential}.rs, in Capability, Store and Credential.
-- - Vault: guardian-broker/src/vault.rs.
-- - Gateway: guardian-mcp-gateway/src/lib.rs. Call is `build_action` and the inference of kinds, Paths
--   the self-protection, State what a gateway keeps and the ports it calls, Handle the steps of
--   `Gateway::handle`, which log their calls of ports as events. Mcp is the module `mcp`, over any
--   router, and Upstream the module `upstream`, whose conversation with a process is Stdio.
-- - Proxy: guardian-proxy/src/lib.rs. Inspection and Server are the `GuardianHandler` of server.rs.
-- - Daemon: guardian-daemon/src. Config is config.rs, and Startup the `main` of main.rs. In lib.rs, Queue is
--   `ApprovalQueue`: a history is a list of commands, newest first, and `after` the world it leads to.
--   Control is `dispatch` of the module `server`, with the JSON of its requests (Wire) and of its responses
--   (Replies), and the client and router (Client).
-- - Checker: guardian-checker/src/lib.rs. Sandbox: guardian-sandbox/src/lib.rs.
-- - Cli: guardian-cli/src/main.rs. Hook is `decide_hook`, Brokered `BrokeredUpstream`, Exec `run_exec`,
--   Publish `run_pack`, Mcp `run_mcp` and its approvers.
--   Evaluation is guardian-cli/src/eval.rs, its cases in Suite; the counters are `u32` and wrap.
--   Cockpit is guardian-cli/src/tui.rs: Events is `handle_event`, Loop `run_loop`, and Buttons the part of
--   `draw` that decides what can be clicked.
-- - Tests: runs at concrete inputs.
--
-- Parameters: the expression language CEL, TOML and JSON text, `str::parse::<f64>`, Unicode lower case,
-- blake3, ed25519, the clock, the file system, randomness, the HTTP client, what the processes of upstream
-- servers print, and for the gateway the checker, the approver and the upstream.
--
-- Bounds: numbers are natural numbers; the sequence numbers and counters of the code do not reach 2 ^ 63
-- in practice, and their overflow is not modelled. Loops over a text take its length as fuel, since each
-- round drops at least one byte; the conversion to floats takes 64 rounds, one for each digit of a
-- 64-bit integer. The counter of the queue of approvals wraps at 2 ^ 64, as the code's does.
--
-- Not modelled: sockets, processes, how the terminal is drawn, notifications, the desktop shell, the
-- certificate authority, and the commands of the command line that only read and
-- print. Calls that wait at the same time for the approver or the upstream are not interleaved in the
-- gateway.
pub mod Common
pub mod Core
pub mod Policy
pub mod Crypto
pub mod Audit
pub mod Broker
pub mod Vault
pub mod Gateway
pub mod Proxy
pub mod Checker
pub mod Daemon
pub mod Sandbox
pub mod Cli
mod Tests
