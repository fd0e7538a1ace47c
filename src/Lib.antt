-- ===== src/Lib.antt =====
-- Free Model Orchestrator for OmniRoute: a model of the Python package src/fmo.
--
-- FMO runs a pipeline of stages, on a schedule or by hand, that reads agents from Hermes, derives
-- roles and their demand, and publishes pool specs to OmniRoute. The parts and their files:
--
-- * Pipeline is src/fmo/pipeline.py: PipelineRunner.run is run_pipeline, its loop run_stages, and
--   _run_stage is run_stage. A stage is a function of the run's id and of the state; the state is
--   the table sync_runs beside all that the stages work on (`env`), of any type.
-- * Persistence is src/fmo/persistence/run.py and lock.py: the rows of sync_runs, where locks are
--   rows too. Ids are numbers that count up, in place of UUIDs.
-- * Scheduler is src/fmo/scheduler.py: trigger, tick and tick_recalibration, the run lock as a
--   bracket `hold` that releases on every way out, and cron matching on texts.
-- * Publisher is src/fmo/pool_publisher.py up to compose_pool_generation; Publisher/Combos is
--   _resolve_combo_ids; Publisher/Publish is publish_pool_generation with the tables that
--   src/fmo/persistence/published_generation.py and audit.py write.
-- * Omniroute is src/fmo/omniroute.py: the request loop, and the version gate in Omniroute/Version.
-- * Roles is src/fmo/role_lifecycle.py, Quality is src/fmo/quality.py, Context is
--   src/fmo/context.py, and Audit is src/fmo/audit.py.
-- * Config is src/fmo/config.py and Bootstrap is src/fmo/bootstrap.py: the checks before a start
--   and the ways out of bootstrap_and_dispatch. URLs have no brackets.
-- * Forecast is src/fmo/forecast.py without aggregate_demand, and Stages is the role-lifecycle,
--   demand-forecast and audit stages of src/fmo/composition_stages on their tables.
-- * Composition is src/fmo/composition.py: the stages that compose and publish; Composition/Commands
--   is the stages of a command, run_command and run_scheduler_once. Cli is src/fmo/cli.py from the
--   parsed arguments on.
-- * Hermes is src/fmo/hermes_inventory.py: the readers of jobs, webhooks, profiles, the gateway,
--   commands and HTTP, with config.yaml as JSON (Auxiliary, Sources, Gateway, Home), the quality
--   anchors with their cache (Anchors) and the grid of combos (Grid). Stages/Inventory is the stage
--   "hermes-inventory" of src/fmo/composition_stages/inventory.py, from the reading to the rows.
-- * Profiles is src/fmo/profile_normalization.py, on configs that are known by their profile, and
--   Profiles/Reader is src/fmo/combo_reader.py with the command "normalize-profiles".
-- * Llm is src/fmo/llm_runtime.py: prompts, attempts and the reading of completions.
-- * Catalog is src/fmo/persistence/role.py and role_consumer.py with the keys and CHECKs of
--   reference/db/schema.sql.
--
-- Base, Effects, Json and Text are shared: the library's names, Python's equality and dicts, an
-- interface Float for its floats, statements that change a state and may raise, JSON values, and
-- the string methods on ASCII. A module's child modules hold its theorems, and Samples its tests.
--
-- Python's dicts are association lists in which a later insert of a key replaces the value. The
-- request loop and the attempts of a completion recurse on the attempts left, and the digits of a
-- number on fuel that exceeds its value, since a number has at most as many digits as its value, or
-- one. The search of _reject_cycles has more fuel than nodes and edges, and a path of the search has
-- no node twice. The endless loop of "serve" is followed for any number of rounds. No other
-- definition has fuel.
--
-- httpx, time.sleep, uuid, json.dumps and hashlib are parameters (the records Outside and Wire, and
-- hash_parts of Stages), and so are the disk, yaml, subprocess, SQL on the database of Hermes, the
-- regular expressions of the prompts, pydantic and the language model (the records HermesFiles and
-- Surroundings, and the arguments of Llm). An exception of httpx is a TransportError; tables order
-- texts by code points and accept every text and number, where Postgres has a collation and refuses
-- NUL in a text and a NaN or an infinity in JSON. Not modelled: argparse and the wiring of the
-- composition root, with build_publisher_stages, and of the LLM runtime, the fixed point of
-- aggregate_demand, the normalization of payloads that are inventories already, the connection to
-- Postgres, and post_response with its byte stream.
pub mod Base
pub mod Effects
pub mod Json
pub mod Persistence
pub mod Pipeline
pub mod Text
pub mod Scheduler
pub mod Roles
pub mod Quality
pub mod Context
pub mod Audit
pub mod Omniroute
pub mod Publisher
pub mod Config
pub mod Bootstrap
pub mod Forecast
pub mod Stages
pub mod Catalog
pub mod Composition
pub mod Cli
pub mod Hermes
pub mod Profiles
pub mod Llm
