-- ===== src/Prometheus/Translate/Counted.antt =====
-- No sample is lost on the way to the time series.

