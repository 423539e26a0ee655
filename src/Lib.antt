-- ===== src/Lib.antt =====
-- Verification of the Python services of social-sentiment.
--
-- The program is a pipeline of services around a RabbitMQ broker. A producer puts raw posts in a
-- queue; preprocessing-service cleans each one and labels its topic; sentiment-service scores the
-- clean posts in batches; storage-service writes the scored posts to the database in batches. A
-- message is acknowledged when it has been passed on, retried once when its processing fails, and
-- put in a dead-letter queue when it cannot be read or fails again.
--
-- The broker and the database are not code of the repository, so their answers are a parameter: a
-- function of every call made so far. An action makes calls and ends with an outcome, which is a
-- value, an exception or a cancellation, and its history holds the calls with their answers.
--
--   Outcome: the exceptions that handlers tell apart, and the outcomes.
--   Broker: messages, calls, histories, actions and Python's `try`. Its children hold the rules for
--   what actions keep (Triples), for acknowledgements that are covered by an earlier confirmed call
--   (Traces) and for deliveries that are settled (Settled).
--   Messaging: shared/messaging.py. Schemas: shared/schemas.py. Pacing: shared/pacing.py.
--   Text: preprocessing-service/preprocess.py, on lists of characters.
--   Preprocessing: `process_message` of preprocessing-service/main.py.
--   Sentiment: `process_batch` and `batch_worker` of sentiment-service/main.py.
--   Storage: `persist_scored_batch` and `db_writer_worker` of storage-service/main.py.
--   Worker: the loop that the two batch workers share, over the turns that the queue gives.
--   Retention: `rollup_scheduler` of storage-service/main.py, over any state of the database.
--   Database: the methods of `DB` in storage-service/db.py over lists of rows, each with the attempts
--     that the connection makes of it.
--   PostFacts, QuoteFacts: the SQL of the two rollups in storage-service/db.py. A group of rows is a
--     list; numbers are scaled, so that sums and squares are exact where PostgreSQL rounds.
--   ArchiveExport: archive-service/export.py. ArchiveExport.Dataset has `export_dataset`, over any object
--     store, with the rows that other transactions commit during it. The loop over fetched batches has
--     as much fuel as there are rows, and each batch takes at least one.
--   Api: computations of api-service/main.py. Api.Connections is `ConnectionManager`, Api.Opportunity
--     `compute_opportunity`, Api.Momentum `compute_sentiment_macd`.
--   GlobalMarket: market-producer/global_market.py. GlobalMarket.Runner has the polling of
--     `GlobalContextMarketRunner`, with the state of the runner and the bars that the database took.
--   RedditProducer: reddit-producer/main.py, one poll over the broker's answers and the delays.
--   Session: `consume_input_messages` and `run_consumer_session` of the same two services.
--   GlobalEvents: `store_rule_events` and `poll_once` of global-events-producer/main.py, over any
--   state of the database and the provider.
--   Catalog: shared/global_instrument_catalog.py. Symbols: shared/symbols.py.
--   Gdelt: global-events-producer/adapter.py and shared/polling.py.
--   SyntheticNav: market-producer/synthetic_nav.py, from the published values on.
--   Migrations: storage-service/schema_migrations.py, with the table of applied versions as a dict.
--   Examples: concrete services, on which the results are tried.
--
-- A loop over a list is a recursion on the list, and the endless loops of the workers run over any
-- list of turns. Fuel is needed only for the printing of numbers, where it exceeds the number, and for
-- the batches of an export, where it is the number of rows.
-- Times are whole microseconds, or nanoseconds in Pacing, and probabilities are billionths, so the
-- rounding of floating point is not modelled. Decoding and encoding of posts, the models, the clock
-- and the tables of characters are parameters.
--
-- Not modelled: logging and metrics, the connection loops of the services, the SQL
-- beyond the two rollups and the inserts, the legacy hourly aggregates and the snapshots, the routes of
-- the HTTP API, the other producers and the second implementation in Rust. Prices and scores are
-- scaled whole numbers or fractions; where only operations matter (Api.Momentum, GlobalMarket.Prices
-- and the percentage of Api.Opportunity) floats are abstract.
mod Prelude
pub mod Outcome
pub mod Schemas
pub mod Broker
pub mod Messaging
pub mod Text
pub mod Preprocessing
pub mod Sentiment
pub mod Worker
pub mod Storage
pub mod Session
pub mod Pacing
pub mod GlobalEvents
pub mod Catalog
pub mod Symbols
pub mod QuoteFacts
pub mod Database
pub mod PostFacts
pub mod Retention
pub mod SyntheticNav
pub mod Gdelt
pub mod Migrations
pub mod ArchiveExport
pub mod Api
pub mod GlobalMarket
pub mod RedditProducer
mod Examples
