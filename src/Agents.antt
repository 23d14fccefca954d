-- ===== src/Agents.antt =====
-- The trace processor of the OpenAI Agents instrumentation (instrumentation-genai/
-- opentelemetry-instrumentation-openai-agents-v2/src/opentelemetry/instrumentation/openai_agents/
-- span_processor.py).
pub mod Spans
pub mod Content
pub mod Actions
pub mod Processor
mod Counts
pub mod Tests
