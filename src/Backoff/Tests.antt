-- ===== src/Backoff/Tests.antt =====
-- The backoff at concrete times, with a thousand ticks to the second.
