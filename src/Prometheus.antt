-- ===== src/Prometheus.antt =====
-- The Prometheus remote write exporter, prometheus_remote_write/__init__.py.
mod Sdk
mod Names
mod Translate
mod Exporter
mod Tests
