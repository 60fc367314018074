-- ===== src/Lib.antt =====
-- V2RayDAR tests the servers of public subscription links and publishes the ones that work. This
-- development models the core of its Rust program (V2RayDAR-main/src): how the candidates of a
-- refresh are scheduled, prepared and probed in batches, when a probe stops, how the results are
-- ranked and counted, and what the runtime state shows meanwhile.
--
-- A refresh (refresh_once of main.rs) turns the subscriptions into candidates and hands them to
-- probe_candidates of probe.rs with a ProbeStopPolicy. There they are scheduled, prepared, and
-- probed in batches: a batch is one sing-box process with a local proxy per entry. Each result is
-- sent as a progress event and may stop the probe. The results are ranked, and the refresh
-- updates its counts of how often each config has worked. What it found is in the runtime state,
-- from which the server answers requests and the proxy takes the config that it runs. The
-- terminal interface edits the configuration, writes it to the file and hands the switches of
-- sharing and of the proxy to the server at once.
--
--   Model      the shared records and the progress events of model.rs, and the order of f64 values
--   Rank       compare_ranked and rank_configs of probe.rs; compare_stability_ranked,
--              compare_ranked_snapshot and deduplicate_ranked_configs of main.rs
--   Stability  apply_stability_ranking of main.rs, and the keys that refresh_once saves
--   Stop       ProbeStopState and probe_stop_reason with what it uses, of probe.rs;
--              probe_stop_policy of main.rs
--   Sizer      ActiveBatchSizer and the limits on concurrent work, of probe.rs
--   Schedule   schedule_active_candidates and source_fair_candidates of probe.rs
--   Prepare    prepare_active_candidates, failed_config and candidates_from_ranked of probe.rs
--   Batch      probe_active_batch and probe_active_batch_with_fallback of probe.rs
--   Waves      probe_active_batched of probe.rs, up to its speed tests
--   Prefilter  probe_tcp, is_udp_protocol and probe_active_with_tcp_prefilter of probe.rs
--   Progress   push_tui_progress, append_asap_working_configs, the logs and the other handlers on
--              RuntimeState, of main.rs
--   Config     AppConfig and validate of config.rs, and the settings menu of tui/config_editor.rs
--   Text       the methods of str that are used, and numbers that are written and read
--   Tui        TuiState and what keys, the mouse and frames do to it: events.rs, state.rs,
--              input_handlers.rs and action_handlers.rs of tui, and drain_events of tui.rs
--   Server     the handlers of server.rs that hand the results out
--   Proxy      PersistentProxy and its health loop, of proxy.rs
--   Prelude    the names that all share: tests on numbers, lists, sets and maps of texts,
--              comparisons, the stable sort, decimals
--   Tests      examples
--
-- State is passed explicitly: a function that changes a variable through a reference returns the
-- new value, and a function that sends progress events returns the list of them. A map is an
-- association list and a set a list of its keys. A panic, such as an index out of range, is
-- `none`, in the terminal interface a result of its own. Machine integers saturate where the
-- source saturates; `usize` and `u64` have 64 bits.
--
-- Loops on fuel: the round robin of Schedule has as many rounds as candidates, since each round
-- takes one; the retries of a batch of n entries have 2 * n + 2 steps, since each attempt
-- finishes a batch, halves it or removes an entry of it; the waves of a probe of n entries have n
-- + 2 steps, since each wave takes an entry or sees the cancel flag set. All three are proved to
-- be enough.
--
-- Parameters: for the proxy, what the process, the network and the clock answer; base64 and the
-- conversion to a Clash configuration; for the terminal interface, whether the file can be
-- written, what the firewall and the database answer, the clock and the layout of the screen; how
-- a socket address is read and written, the token that is generated, serde_json values and the
-- conversion of share links, the hash of an outbound, the GeoIP database, and, for a batch, the
-- attempts: what the process, the network and the other holders of the cancel flag do in each,
-- and in which order the batches of a wave finish; and, for the TCP sweep, how each connect ends
-- and in which order they finish. Hypotheses about probes say only that each connect is answered
-- once, that a batch reports results of its own entries, and, where they are needed, that nobody
-- cancels and every probe of a started batch finishes, or that the policy's cancel flag stays set
-- once it is set.
--
-- Not modelled: the speed tests after the waves; parsing of subscriptions and share links; the
-- files of the configuration, the listeners of the HTTP server; what the terminal interface draws
-- and how it edits the text of the YAML file; files, processes, sockets and the database, which
-- are I/O; and v2raysub, which is another program.
pub mod Prelude
pub mod Model
pub mod Text
pub mod Rank
pub mod Stability
pub mod Stop
pub mod Sizer
pub mod Schedule
pub mod Prepare
pub mod Batch
pub mod Waves
pub mod Prefilter
pub mod Progress
pub mod Config
pub mod Proxy
pub mod Tui
pub mod Server
pub mod Tests
