-- ===== src/Lib.antt =====
-- The invoker of serverless functions: it takes invocations from Kafka or HTTP, fetches the function,
-- gets a container from a pool, initializes and runs the function in it, collects its logs, answers
-- the controller, and stores the activation.
--
-- The parts and their files, each with the code that it is about:
-- - Base: numbers, lists, texts, Go maps as association lists, and unsigned 64-bit words, whose
--   additions and subtractions wrap around (add64, sub64).
-- - Container: containers as the pool sees them (pkg/exec/container.go, pkg/exec/pool.go).
-- - Pool: the pool of containers (pkg/exec/pool.go), with its reserve of prewarmed ones. Pool.State is
--   the record ContainerPool with what the mutex and the channels hold; Pool.Get, Put, Reap, Prewarm
--   and Shutdown have one function per method, and Pool.Space has the eviction loop of getContainer.
--   The other files under Pool are about the invariant and the properties; Pool.System is the pool
--   with its clients, as a step relation.
-- - Entities and Messages: functions, with the reading of their code in Entities.Code, activations and
--   the error texts (pkg/entities, pkg/protocol).
-- - Runner: Invoke and its collection of logs (pkg/runner/runner.go). Runner.Invoke has the phases,
--   Runner.Whole puts them together with the deferred functions.
-- - Responses: the acknowledgements and the two runners that write them (pkg/protocol/ack.go,
--   pkg/kafka/runner.go, pkg/http/runner.go).
-- - Client: the requests to CouchDB (pkg/couchdb/client.go): retries, documents, attachments, bulk
--   writes, blocked namespaces, and the renewal of the HTTP client.
-- - Batcher: the writer of activations in bulk (pkg/couchdb/batcher.go).
-- - Parameters: the decryption of parameters (pkg/encryption/decryptor.go) and their division in
--   ParseActivationMessage (pkg/protocol/activation.go).
-- - Docker: the containers of Docker (pkg/exec/docker/container.go): Requests, Pausing, Addresses and
--   Streams.
-- - Cache: the cache of functions (pkg/entities/function_cache.go), whose calls interleave by steps.
-- - Firewall: the iptables rules of the containers (pkg/firewall). Firewall.Table is reconcile, with the
--   cluster's objects; Firewall.Reconciling is Reconcile, with the commands of Firewall.Exec; Events is
--   the filter of the informers' events, and Watching the cluster that they are about. Verdicts has the
--   texts of the rules and their meaning for packets, Managed says which lines of a table are the
--   firewall's own.
-- - Invoker: the main program (cmd/invoker/main.go): Offsets is the loop in which the workers store the
--   highest offset, Workers what a worker does with its messages and what is computed beside, Blocking
--   the way of the blocked namespaces, and Poking how the events of the cluster lead to reconciliations.
-- - Sizes: sizes in bytes (pkg/units/units.go). Manifests: the manifests of the runtimes
--   (pkg/exec/runtimes.go). Payloads: the environments that are passed to a container
--   (pkg/exec/payload.go).
-- The runner uses the outcome of the pool's Get and the replies of Docker's requests; the runners of
-- Kafka and HTTP take the runner's Invoke as their inner runner.
--
-- What other code answers is an argument: a record of answers (World for containers, the factory and
-- the firewall; Answers for an invocation with its readings of the clock; Printing and Quoting for
-- Go's formatting), or a function (JSON). A string that the program measures or cuts is the list of its
-- bytes; a string that it only compares or passes on is a string, whose characters are taken for
-- bytes where it is joined to such a text.
--
-- Bounds: the eviction loop runs on fuel, one round per idle container and one more, which is enough
-- since each round removes one; the results about Get hold with the fuel that the model gives it.
-- The retries of Docker's commands are counted down from ten; those of a database request run on fuel,
-- one more than the two minutes in milliseconds. Printing a number takes 20 digits at most, which is
-- enough below 2^64. The workers' loop over the highest offset is a step relation, and ends by a
-- theorem. All other loops follow a list. Times and durations are nanoseconds that do not go back.
--
-- Not modelled: how the calls of different clients of the pool interleave inside one call (a call is
-- one step; the semaphore's admission is the premise of Get), the back-pressure of channels, contexts
-- that are cancelled from outside, metrics and log output, the parsing and encoding of JSON,
-- floating-point numbers, and the set-up of clients and servers in cmd/invoker and pkg/kafka. A
-- reconciliation reads the cluster's objects in one step.
pub mod Base
pub mod Client
pub mod Container
pub mod Docker
pub mod Entities
pub mod Messages
pub mod Parameters
pub mod Pool
pub mod Batcher
pub mod Responses
pub mod Firewall
pub mod Invoker
pub mod Sizes
pub mod Cache
pub mod Manifests
pub mod Payloads
pub mod Runner
