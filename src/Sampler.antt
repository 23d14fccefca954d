-- ===== src/Sampler.antt =====
-- The AWS X-Ray remote sampler (sdk-extension/opentelemetry-sdk-extension-aws, trace/sampler).
pub mod RateLimiter
pub mod Matcher
pub mod Sdk
pub mod Rule
pub mod Limited
pub mod Target
pub mod Applier
pub mod Cache
pub mod Client
pub mod Remote
mod Tests
