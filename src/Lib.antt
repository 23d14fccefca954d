-- ===== src/Lib.antt =====
-- A model of parts of the OpenTelemetry contributions for Python, and what is proved of it.
--
-- Parts. The remote sampler of AWS X-Ray (sdk-extension/opentelemetry-sdk-extension-aws/src/
-- opentelemetry/sdk/extension/aws/trace/sampler) decides which spans are sampled. It keeps a cache
-- of rules; each rule has an applier with a reservoir, which is a rate limiter, a fixed rate, and
-- counts. A request goes to the first applier whose rule matches the span and its resource, and to
-- a fallback sampler if there is none or the cache has expired. One poll fetches the rules; another
-- sends the counts, gets targets with a share of each reservoir, and may fetch the rules again.
-- The propagator of AWS X-Ray (propagator/opentelemetry-propagator-aws-xray/src/opentelemetry/
-- propagators/aws/aws_xray_propagator.py) writes the ids of a span into a trace header, and makes a
-- remote span of a header that a carrier, or the environment of a Lambda function, holds.
-- The agent of the Open Agent Management Protocol (opamp/opentelemetry-opamp-client/src/opentelemetry/
-- _opamp) keeps a queue of messages for a server. Its worker thread takes one at a time, has the client
-- number it, and sends it until there is a response or no retry left; its scheduler thread queues
-- heartbeats once the first report has a response; callbacks of the application may queue messages and
-- change what the client reports.
-- The propagator of OT trace headers (propagator/opentelemetry-propagator-ot-trace/src/opentelemetry/
-- propagators/ot_trace/__init__.py) writes the ids of a span into three headers, with the baggage, and reads them.
-- A labeler (opentelemetry-instrumentation/src/opentelemetry/instrumentation/_labeler/_internal/
-- __init__.py) keeps attributes of the application, with limits, which are added to those of a metric.
-- A wrapper of a stream (util/opentelemetry-util-genai/src/opentelemetry/util/genai/stream.py) hands what
-- the stream gives to its user, and calls hooks for the telemetry. The hooks for chat completions
-- (instrumentation-genai/opentelemetry-instrumentation-openai-v2/src/opentelemetry/instrumentation/
-- openai_v2/chat_wrappers.py and chat_buffers.py) gather the chunks, and finish an invocation of the GenAI
-- utilities (util/opentelemetry-util-genai/src/opentelemetry/util/genai/_invocation.py).
-- The Prometheus exporter (exporter/opentelemetry-exporter-prometheus-remote-write/src/opentelemetry/
-- exporter/prometheus_remote_write/__init__.py) translates metrics into time series, and posts them.
-- The semantic conventions (opentelemetry-instrumentation/src/opentelemetry/instrumentation/_semconv.py)
-- have a mode for each kind of signal, read once from the environment; the functions that set attributes
-- set the old ones, the new ones or both. An instrumentor (instrumentor.py in that folder) checks its
-- dependencies (dependencies.py), initializes the modes, and patches a library; auto_instrumentation/
-- _load.py loads the instrumentors that are installed.
-- The trace processor of the OpenAI Agents instrumentation (instrumentation-genai/
-- opentelemetry-instrumentation-openai-agents-v2/src/opentelemetry/instrumentation/openai_agents/
-- span_processor.py) keeps a span of OpenTelemetry for each trace and span of the Agents SDK that is open, and
-- gathers for an agent the content of the spans below it.
-- The helpers of HTTP instrumentations (util/opentelemetry-util-http/src/opentelemetry/util/http/__init__.py)
-- capture headers, redact URLs, and read lists from the environment; they have no state.
-- The parts share no state, but for the stream with what is built on it, and an instrumentor with the modes.
-- The sampler and the propagators meet in the SDK, where the sampler is asked
-- about spans whose parent a propagator made.
--
-- Files, with the names of the code's files in the folders above:
--   Common and its children     Booleans, lists and text, shared by all
--   Sampler/Sdk                 what the code uses of the SDK, as a record of parameters
--   Sampler/RateLimiter         _rate_limiter.py, `_RateLimiter`
--   Sampler/Limited             _rate_limiting_sampler.py and _fallback_sampler.py
--   Sampler/Matcher             _matcher.py: `wild_card_match`, `to_regex_pattern`, `attribute_match`
--   Sampler/Rule                _sampling_rule.py: `__init__`, `__lt__`, `__eq__`, and `list.sort`
--   Sampler/Target              _sampling_target.py and _sampling_statistics_document.py
--   Sampler/Applier             _sampling_rule_applier.py; `matches` is in Sampler/Applier/Matching
--   Sampler/Cache               _rule_cache.py, `_RuleCache`
--   Sampler/Client              _aws_xray_sampling_client.py, from the replies of the service on
--   Sampler/Remote              aws_xray_remote_sampler.py, `_InternalAwsXRayRemoteSampler`
--   Words, Xray/Hex             what the parts use of `str` and `int`
--   Xray/Api                    what it uses of the API, as records of parameters
--   Xray/Header                 `_extract_span_properties`, its validators and parsers
--   Xray/Propagator             `extract`, `inject`, and `extract` for Lambda
--   Opamp/Proto                 the protocol messages, with the generated code as parameters
--   Opamp/Client                client.py, `OpAMPClient`, and the builders of messages.py
--   Opamp/Job                   agent.py, `_Job`, and what the worker does after a failure
--   Opamp/Agent                 agent.py, `OpAMPAgent`: its threads and callbacks as events
--   Ottrace/Ids                 the ids in OT trace headers, and `_extract_identifier`
--   Ottrace/Baggage             the two loops over baggage, with their limits
--   Ottrace/Propagator          `OTTracePropagator`
--   Labeler                     `Labeler` and `enrich_metric_attributes`
--   Genai/Stream                stream.py, `SyncStreamWrapper`
--   Genai/Invocation            _invocation.py, the life cycle of `GenAIInvocation`
--   Genai/Buffers, Genai/Chat   chat_buffers.py, and `_ChatStreamMixin` of chat_wrappers.py
--   Prometheus/Sdk              what the exporter uses of the SDK, with values and floats as parameters
--   Prometheus/Names            `_sanitize_string`
--   Prometheus/Translate        `_translate_data` and what it calls
--   Prometheus/Exporter         the settings, `export` and `_send_message`
--   Semconv/Modes               _semconv.py, the modes and their initialization
--   Semconv/Setters             _semconv.py, the functions that set attributes
--   Semconv/Status              _semconv.py, the status, the filters and the schema URL
--   Instrument/Dependencies     dependencies.py
--   Instrument/Instrumentor     instrumentor.py, `BaseInstrumentor`
--   Instrument/Load             auto_instrumentation/_load.py
--   Agents/Spans                span_processor.py: names, kinds, status and attributes of a span
--   Agents/Content              span_processor.py: the content that is gathered for an agent
--   Agents/Actions              span_processor.py: the calls of the SDK for a span
--   Agents/Processor            span_processor.py, `GenAISemanticProcessor`
--   Http/Url                    util/http/__init__.py: URLs, methods and user agents
--   Http/Headers                util/http/__init__.py: captured headers
-- The children of a module hold its lemmas, named for what they prove; Tests holds the runs on
-- concrete inputs.
--
-- State. An object is a record, and a method is a function that returns the next record with the
-- result. An applier is in one list, and is changed in place there. `run` in Sampler/Remote/Run is a
-- list of events, each a request or a poll with its time and the reply of the service: it stands for
-- every order in which the threads take the locks. `run` in Opamp/Agent is a list of events in the same
-- way, where an event of the worker is what it does between two waits, with what its callbacks call.
-- A run of the trace processor of Agents/Processor is a list of its calls, with a log of those that it makes of
-- the SDK. Time is an argument of the sampler's operations, in microseconds, and need not increase.
--
-- Numbers. The wallet of a limiter is held in whole numbers, in `quota`-ths of a microsecond, where
-- the source divides by the quota and rounds. A rate is a `float` in the source and a parameter
-- here, with the equality and the sampler that the SDK has for it. Counts and priorities are `int`,
-- which have no bound. Delays of the agent are whole milliseconds, before jitter. Quotas and
-- intervals below zero are left out.
--
-- Loops are structural recursion on lists. `pad_hex`, which prints a number, has the number itself as
-- fuel, and each step divides it by 16. The search for the agent above a span has as fuel the number of parents
-- that are kept and one more, as each step visits another of them. A trace id read from a header may have a sign, as `int` reads
-- one, so ids are integers.
--
-- Text is a list of code points, below 256 in trace headers. A regular expression is a list of the
-- three parts that the code writes, and matching it is what `re.fullmatch` documents; `.` does not
-- match a newline.
--
-- Not modelled: the HTTP sessions, the timers and their jitter, random ids, logging, and the
-- `ParentBased` wrapper of the SDK; the parsing of JSON and of URLs, which are parameters; the encoding
-- of the agent's configuration; what the trace processor makes of the data of a span, which is part of the event
-- that ends it; the other packages of the repository.
pub mod Common
pub mod Words
pub mod Sampler
pub mod Xray
pub mod Opamp
pub mod Ottrace
pub mod Labeler
pub mod Genai
pub mod Prometheus
pub mod Semconv
pub mod Instrument
pub mod Agents
pub mod Http
