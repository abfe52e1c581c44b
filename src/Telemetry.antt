-- ===== src/Telemetry.antt =====
-- elyra-engine/src/elyra/monitor/ebpf/aggregator.py: the summaries of processes that eBPF events give.
pub mod Aggregator
pub mod Bounds
pub mod Expiry
pub mod Examples
