-- ===== src/Genai.antt =====
-- The GenAI utilities, and the instrumentation of OpenAI's chat completions where it handles streams.
mod Stream
mod Invocation
mod Buffers
mod Chat
mod Tests
