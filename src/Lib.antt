-- ===== src/Lib.antt =====
-- A verification library for ipb, the industrial protocol bridge: data points flow from scoops (devices
-- and brokers) over a router to sinks. The modelled parts are the data point that all others exchange, the
-- registry that chooses sinks for it and writes to them, the backpressure that regulates the flow, the
-- earliest-deadline-first scheduler that runs the bridge's tasks, and the text encodings of the transform
-- library. Rate limiters and lock-free queues are the common parts that its threads use, authorization
-- decides who may do what, and the message bus matches topics. The router takes a data point through the
-- rules of the rule engine to the registry of sinks; Sparkplug payloads are what one of the sinks writes
-- and one of the scoops reads.
--
-- Files and what they model, with the paths of the repository:
--   Base         names that the other files share: native numbers and lists measured by them (Base/Lists),
--                Boolean tests (Base/Tests), integers (Base/Int), byte layouts (Base/Bytes and Base/BigEndian),
--                the results of fallible code (Base/Result), and what the code asks of `double`
--                (Base/Double).
--   Data         core/common/include/ipb/common/data_point.hpp and core/common/src/data_point.cpp.
--                Data/Value: `Value`, its setters, getters, copy, move, `serialize` and `deserialize`; the
--                union of inline array and heap block is the type `Storage`. Data/Point: `DataPoint`.
--   Sinks        core/components/src/sink_registry. Sinks/Info: `SinkInfo`. Sinks/Balancer: load_balancer.cpp,
--                a function `select_...` per strategy. Sinks/Registry: sink_registry.cpp, registration,
--                setters and selection; Sinks/Registry/Writing: writes, health and statistics. The registry's
--                calls take and return the record `Registry`.
--   Scheduler    core/components/src/scheduler. Scheduler/Queue: task_queue.cpp. Scheduler/Edf:
--                edf_scheduler.cpp; Scheduler/Queue/Calls and Scheduler/Edf/Calls: their calls in any order.
--   Backpressure core/common/include/ipb/common/backpressure.hpp: sensor, controller and stage; Backpressure/Laws
--                and Backpressure/Counts have the theorems.
--   Encoding     core/transform/src/encoding.cpp and core/transform/include/ipb/transform/encoding/encoding.hpp.
--                Encoding/Tables: alphabets and decode tables; Encoding/Hex; Encoding/Base64.
--   RateLimiter  core/common/include/ipb/common/rate_limiter.hpp. RateLimiter/Bucket: `TokenBucket`;
--                RateLimiter/Bucket/Rate and Paid: what a refill credits, by the rate. RateLimiter/Window:
--                `SlidingWindowLimiter`; RateLimiter/Layers: the adaptive and the
--                hierarchical limiter and the registry.
--   Lockfree     core/common/include/ipb/common/lockfree_queue.hpp. Lockfree/Spsc: `SPSCQueue`, the two threads
--                as places in their calls and a step for each access to the shared memory.
--   Security     core/security/include/ipb/security/authorization.hpp. Security/Access: resources and
--                permissions; Security/Authorization: roles, policies and `AuthorizationService`.
--   MessageBus   core/components/src/message_bus/channel.cpp: `TopicMatcher`.
--   RuleEngine   core/components/src/rule_engine. RuleEngine/Wildcard: pattern_matcher.cpp, `WildcardMatcher`.
--                RuleEngine/Rule and RuleEngine/Engine: rule_engine.cpp, a rule's evaluation and
--                `RuleEngineImpl`, the record `Engine`, with its cache; Engine/Refinement has the calls as data.
--   Router       core/router/src/router.cpp. Router: start and stop. Router/Legacy: the router's own rules and
--                their conversion. Router/Management: rules and sinks. Router/Routing: `route`, `route_batch`.
--                The router holds an `Engine` and a `Registry`; Router/Routing passes the matches of the
--                one to the writes of the other.
--   Sparkplug    sinks/sparkplug/src/sparkplug_encoder.cpp (Sparkplug/Encoder), sparkplug_payload.cpp
--                (Sparkplug/Decoder) and sparkplug_topic.cpp (Sparkplug/Topic) of scoops/sparkplug/src.
-- Each part has a module Examples with its theorems at concrete inputs.
--
-- How the program is read. State is passed as a record, and a call is atomic: locks and memory orders are
-- left out. Only in Lockfree the threads interleave, each access being one step. What comes from outside
-- is an argument: the clock, random numbers, what a sink's write or a task's function answers, and
-- OpenSSL's base64 functions. `double` is a parameter; the bounds of its rounding are a record of
-- RateLimiter/Bucket/Rate, which only the theorems on a rate of tokens take. Unsigned counters wrap at
-- their width; signed 64-bit counters and clock readings are integers without bound, but where a theorem
-- says that they fit. All loops but two are
-- structural recursion, so they need no fuel; the walk over the roles is given one nested call more than
-- there are roles, and the wildcard search a number of turns by the lengths of pattern and input, which
-- are enough by theorems; the loop of a blocked call runs over what its turns see, so that it returns is a
-- theorem. Where `std::sort` and `std::priority_queue` leave the order of equal elements open, the older
-- one goes first.
--
-- Not modelled: the message bus but for its topics, the pattern matchers but for wildcards, whose answers
-- the rule engine takes as a parameter, as it does those of conditions on values; the router's deadlines
-- and its builder of rules; the queues with several producers; threads and their wake-ups; periodic tasks;
-- authentication, audit and TLS; the sinks, scoops and transports but for Sparkplug payloads and topics,
-- which are clients of external services; configuration, logging and the applications.
pub mod Backpressure
pub mod Base
pub mod Data
pub mod Encoding
pub mod Lockfree
pub mod MessageBus
pub mod RateLimiter
pub mod Router
pub mod RuleEngine
pub mod Scheduler
pub mod Security
pub mod Sinks
pub mod Sparkplug
