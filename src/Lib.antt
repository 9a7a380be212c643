-- ===== src/Lib.antt =====
-- raglogs explains incidents from logs. This library models the parts of it that decide: what a set of
-- observations says about the hypotheses, who may ask what and how often, how the provider of
-- explanations is called, which rows are deleted when, and which worker runs a job.
--
-- The structural inference, src/core/rca. Observations (observable.py, Rca/Observable.antt) feed the
-- hard and soft layers of a hypothesis (expectations.py and hypothesis.py, Rca/Expectations.antt and
-- Rca/Hypothesis.antt). `partition` (partition.py, Rca/Partition.antt) drops the contradicted
-- hypotheses and groups the others by what they predict on the usable coordinates; `resolve`
-- (outcome.py, Rca/Outcome.antt) labels the partition and builds its evidence packet. A function that
-- raises ValueError returns `Result` (Rca/Result.antt). A dict is the list of its pairs in their order,
-- a frozenset a list of which only membership is read. Rca/Builder.antt is structural_model.py from the
-- summaries of spans and metrics on, whose rates and ratios are a type parameter, and Rca/CallGraph.antt its
-- `call_edges`, the graph of the calls that the spans show. A confidence and a threshold are millionths, a
-- weight is tenths. Provenance is a type parameter, with its equality as a parameter of `partition`.
--
-- The API, src/api. A request passes auth/middleware.py (Api/Auth.antt), which finds its principal by
-- an API key (auth/keys.py, Api/Keys.antt) or an OIDC token (auth/oidc.py, Api/Oidc.antt); argon2, the
-- JWT library and the network are parameters. Api/Routes.antt is the path that the role map and the
-- rate limiter see;
-- Api/Scope.antt is auth/scope.py, Api/Roles.antt auth/roles.py, Api/RateLimit.antt ratelimit.py. The
-- limiter and the role map work on the same path, and Api/RateLimit/Limits.antt relates them. The
-- digits of the pattern for a version and `str.upper` are parameters. A token is a thousand of its
-- parts, a time is milliseconds and does not run back. Api/Idempotency.antt is
-- core/ingestion/idempotency.py, which the route for ingestions calls: the table is a list of rows, and
-- what other transactions commit during a call is a function.
--
-- The provider, src/core/llm/resilience.py. Llm/Breaker.antt is the circuit breaker, one function for
-- each method under its lock, so that a call is a step and an interleaving of threads is a sequence of
-- steps (Llm/Breaker/Steps.antt). Llm/Invoke.antt is `invoke_llm`, on the interface of tenacity
-- (Base/Retrying.antt), whose laws are what its documentation says of stop_after_attempt and
-- retry_if_exception with reraise; Llm/Invoke/Outage.antt puts requests one after the other. Llm/Packet.antt is the cut to the token budget: its `while` loop
-- runs on fuel, one more than the items that the packet holds, which is proved enough.
--
-- The retention of rows, src/core/retention. Retention/Policy.antt is policy.py with `parse_duration` of
-- utils/time.py; `timedelta`, the digits of a pattern and `str.lower` are parameters, times are
-- microseconds since `datetime.min`. Retention/Rows.antt has the statements of purge.py over any table,
-- Retention/Store.antt the tables with their cascades, Retention/Purge.antt a batch of one scope,
-- Retention/Run.antt `run_purge` and Retention/Jobs.antt what enqueues it and runs it as a job. What is
-- raised or returned is an `Attempt` (Retention/Attempt.antt); an id is a number, and a primary key is a
-- hypothesis on the tables. The `while True` of a scope runs on fuel: one more than the rows of the
-- tables is proved enough. The join that counts what expired rows own is membership of the owner's id.
--
-- The worker, src/worker/runner.py. Worker.antt is `claim_next_job` and `process_one` on a list of
-- jobs; what a job runs is a parameter, which says whether it returns and which jobs it adds, as a
-- purge does that leaves rows. Worker/Steps.antt has the commits of several
-- workers as steps on the committed table and the holds: a hold is under a row lock from the claim to the
-- next commit, which SKIP LOCKED passes over. The status "done" is `completed`.
--
-- Explain/Confidence.antt is src/core/explain/confidence.py, the points and labels of an explanation.
--
-- Base holds what the parts share: tests on native numbers, lists, texts (`str.strip` with its spaces),
-- membership, and `sorted` as a stable insertion sort. The modules named Tests run the functions on
-- concrete data.
--
-- Not modelled: the database as such, HTTP and command line layers, the adapters, parsing by regular
-- expressions, clustering and ranking on floating-point scores, logs, spans and metrics, the texts of
-- errors, and the serialisation to dicts.
pub mod Base
pub mod Llm
pub mod Api
pub mod Rca
pub mod Retention
pub mod Worker
pub mod Explain
