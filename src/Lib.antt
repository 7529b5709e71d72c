-- ===== src/Lib.antt =====
-- A verification library of civicpatch-tools.
--
-- THE PROGRAM. civicpatch-tools keeps the rosters of local governments. Pipelines scrape a
-- jurisdiction's pages and file what they read as records; people file claims, and withdraw them;
-- civicpatch.org folds every filed fact into the roster that it publishes. Modelled here are
--   * the projection (civicpatch.org/src/core/projection): a pure fold over facts;
--   * where a scraped record is placed (civicpatch.org/src/core/organization_placement.py), which
--     decides the organization that the projection reads it under;
--   * when a state's scrape is due, and which cap its spending has reached
--     (civicpatch.org/src/core/scrape_schedule.py, spend_limits.py);
--   * when a post may be deleted into another (civicpatch.org/src/core/post_deletion.py), which the
--     projection then reads as that one;
--   * the lifecycle of a changeset (civicpatch.org/src/core/changeset_lifecycle.py);
--   * the engine that runs a pipeline (pipelines/src/runners/engine.py);
--   * the people collector (pipelines/src/runners/pipeline03_people_collector): its frontier of
--     links, one scrape, when it has enough, and the transitions that the engine calls.
-- The engine asks a machine (a graph and its handlers) for the next state; the people collector is
-- such a machine. Its handlers change the frontier. What a run has read is filed as a changeset,
-- whose facts the projection reads once it is published.
--
-- THE FILES, and what each models.
--   * Prelude: Boolean tests, lists, Python's `dict`, `sorted` and `max`, the `latest_first` order.
--   * Projection.Facts: facts.py, and the enumerations of shared/src/shared/utils/statuses.py.
--   * Projection.LiveFacts: `live_facts`; Projection.CanonicalIds: `canonical_ids`, `with_merges`,
--     `without_merges`; Projection.FieldValue: the scalar and the list fields of field_value.py;
--     Projection.Names: its names, and its override disclosure; Projection.Reads: `reads_of`;
--     Projection.Memberships: memberships.py; Projection.PersonIds: `with_person_ids` and
--     `without_stale_claims`; Projection.AsOf: as_of.py; Projection.History: membership_history.py,
--     over the records of people.py and roster.py; Projection.Clusters: `person_clusters`.
--   * Projection.Roles: `derive_roles` of people_roles.py; Projection.Posts: posts.py and
--     membership_details.py; Projection.People: `derive_person` of people.py; Projection.Partial:
--     partial_records.py; Projection.PostMerges: post_merges.py; Projection.Roster: `derive_roster`,
--     the whole fold; Projection.Diff: diff.py; Projection.Rebuilds: when two loads hold the same
--     facts; Projection.Samples and Projection.Town: the facts that the examples run on.
--   * Changesets: `TRANSITIONS`, `INITIAL_STATE`, `states_accepting`.
--   * Placement: organization_placement.py, where one scraped record belongs.
--   * Schedule: scrape_schedule.py and spend_limits.py; PostDeletion: `merge_refusal`.
--   * StateGraph: `terminal_states`, `next_states`; Engine: `run_pipeline`, `_finish`.
--   * Collector.Frontier: `LinkFrontier` of schemas.py, every query and every change;
--     Collector.Scrape: `scrape_page`, `_record_failure`, `should_retry`; Collector.Progress:
--     process_page_content_transition.py and `required_to_be_done`; Collector.Graph: graph.py;
--     Collector.Handlers: transitions/main.py, each transition and `TRANSITION_MAP`;
--     Collector.Discovery: `add_relevant_urls` of utils/link_discovery.py; Collector.Crawl: the
--     calls on a frontier, as a step relation that counts the scrapes.
-- A module's definitions stand in the file of its name, the lemmas on them in the files below it,
-- and examples in its Tests.
--
-- HOW THE CODE IS READ. A function is a function by clauses. A time is a count of microseconds, a
-- cost a count of the limits' smallest unit. A set that is only asked for membership is a list. A
-- claim's value is a text or none; where a claim names an id, none is read as the empty id. A
-- keyword list `**updates` is a function on the link. A step's own work (the browser, a language
-- model, a file, a request) is an argument: `Outcome`, `World`, `Turn`. A call that the engine makes
-- is an element of its output. Only numbers that are never below zero occur, and a subtraction of
-- the source is written so that it does not stop at zero where the source's does not.
--
-- FUEL. `live_facts` recurs along withdraws, which may form a cycle: its fuel has to be above the
-- ranks of the facts. `canonical_ids` follows parents: one step more than there are claims. Both
-- results say that they return. A run of the engine is as long as its list of turns; one that ends
-- by then is told from one that is unfinished.
--
-- PARAMETERS. `canonical_url`, `format_url` and `same_domain` (shared/src/shared/utils/url_utils.py),
-- `membership_id` and `PostKey.post_id` (hashes), the normalisers of phones and emails (third-party
-- parsers), how names are compared (shared/src/shared/utils/name_utils.py), `parse_label` and
-- `division_ocdid` (shared/src/shared/utils/label_parser.py), `published_image_url`, and
-- `percentage`, the progress that a run shows, which is computed in floating point.
--
-- NOT MODELLED: how one label is parsed, and how a scrape's records are first grouped into people
-- (people_derivation.py); the screens that edit and compare rosters; which of two links a crawl
-- reads first, and how often it starts again; the SQL layer, routers and services of
-- civicpatch.org, the front end and the workflows, which are glue; the steps that parse pages or
-- ask a language model; and the deployment scripts.
pub mod Prelude
pub mod Projection
pub mod Collector
pub mod StateGraph
pub mod Engine
pub mod Changesets
pub mod Placement
pub mod Schedule
pub mod PostDeletion
