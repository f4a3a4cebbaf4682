-- ===== src/Lib.antt =====
-- The Python test harness of the repository, modelled and verified: the client of the core's
-- socket (test-harness/lib/cs_probe.py), the feature list and the central runner
-- (test-harness/lib/run_probes.py), the stand-in for the GitHub API
-- (test-harness/lib/github_api_mock.py) and the MCP server whose tools call it
-- (test-harness/lib/github_mcp_server.py), and modules of test-harness/probes that ask the core.
--
-- How the parts fit: a probe opens a `Client` on the core's socket and sends requests, each with a
-- fresh id, while the core also sends events on the same stream. It prints the results of its
-- features; the runner collects the printed results of all probes, keeps the strongest status of
-- each feature and marks the passed ones in feature_list.json. The MCP server reads
-- JSON-RPC messages line by line, and its tools create, close and read issues through the stand-in,
-- which keeps them by repository and number.
--
-- Files:
--   Prelude      shared names, Boolean tests, lists over the native numbers, the integers
--   Python       what Python gives: dynamic values (`Json`), exceptions as values (`Result`), the
--                methods of `str` that are called (`Text`, `splitlines` in Lines), code that changes a state and raises
--                (`Stateful`), dictionaries (`Dict`), how values compare (`Values`), and the
--                operations on them, each of which raises where Python's does (`Operations`,
--                `Dynamic`, `Builtins`)
--   Wire         Frame: `encode_frame` and the header. Client: `_read_exactly`, `_read_frame` as
--                state and exceptions; Envelope, Request: `request` and `subscribe_events`
--   Features     `mark_passing`, on the list as an argument and a result
--   Runner       `run_module`, on the output of a process, and `main` of the runner
--   Github       Path: the two routes. Api: the handler class and its store. Mcp: the tools and
--                the loop of the MCP server. Tools: the server and the stand-in together
--   Launch       `running_core`: the effects of starting and stopping the core, in their order
--   Probes       Harness: what the probe modules use that is not their code: the core, the client,
--                files, processes, texts of values. Steps: the frame that they share (`record`,
--                `ev`, the `try` of a feature, `main`). Batch3 to Batch63, LlmBatch4, 6 and 18: the
--                modules of test-harness/probes of these names, each feature's `try` as a
--                computation in the words of the source; a larger module has its features in the
--                files below it. Suite: the modules with a plain `main` and the runner together.
--                Meaning: what a passed feature says of the core
--   Tests        the theorems at concrete inputs, and runs of the model
--
-- The socket's input is a list of `recv` outcomes with their delays, so every way to cut the
-- stream into chunks, every silence and every close is a value of the model. The clock advances by
-- the delays only. msgpack and json are parameters: `packb`, `unpackb`, `loads`,
-- `dumps`, and so is the network between the MCP server and the stand-in (`Outside`); where a theorem
-- relies on a codec it assumes the round trip of the one value at hand. The fresh id of a request
-- is an argument. The loop of `request` and the generator of `subscribe_events` run on fuel, and
-- for `request` more fuel than bytes that can arrive is enough, for the generator more than frames
-- before the next event. All other loops are structural.
-- The decimal digits of n are printed with fuel n + 1, which is enough.
--
-- A float is m / 2 ^ k: the finite ones. A dict is an association list in insertion order.
-- A local variable that would clash with a name of the development is called `x_reply`, a loop
-- over a tuple of literals is written out, and `dumps`, `repr`, formats, `lower`, sums and differences
-- of numbers (which round) are parameters of the `Harness`. A set is a list without repetitions, in
-- the order in which its elements come.
-- Not modelled: the file system and processes themselves, the drawing code (test-harness and assets),
-- and the probe modules that are not named above; `running_core` is what a `Harness` launches and
-- stops, and Launch has it as a list of effects. Its loop runs at most 100 times, as in the code.
pub mod Prelude
pub mod Python
pub mod Wire
pub mod Features
pub mod Runner
pub mod Github
pub mod Launch
pub mod Probes
mod Tests
