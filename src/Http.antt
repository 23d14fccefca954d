-- ===== src/Http.antt =====
-- The helpers that the HTTP instrumentations share (util/opentelemetry-util-http/src/opentelemetry/util/http/
-- __init__.py and constants.py).
mod Url
mod Headers
mod Tests
