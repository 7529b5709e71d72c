-- ===== src/Collector/Handlers/Tests.antt =====
-- Runs of a people collector with two pages, and with one page that has no content.
use civicpatch_tools.Prelude.{ℕ, String, refl, Bool, true, some, none, List, [], ◌∷◌}
use civicpatch_tools.StateGraph.{PipelineRunStatus, status, step, state_eq, state_eqb}
use civicpatch_tools.Engine.{unreachable, Turn, run_pipeline}
use civicpatch_tools.Prelude.Dict.{get}
use civicpatch_tools.Collector.Graph.{PeopleCollectorStep, step_eq}
use civicpatch_tools.Collector.Frontier.{Link, LinkStatus, new_link, get_link}
use civicpatch_tools.Collector.Scrape.{fetched}
use civicpatch_tools.Collector.Progress.{PipelineRunLimits}
use civicpatch_tools.Collector.Handlers.{PeopleCollectorData, gave, threw, World}
use civicpatch_tools.Collector.Handlers.Steps.{Context, start_job}
use civicpatch_tools.Collector.Handlers.Runner.{people_collector}
use civicpatch_tools.Collector.Handlers.Legal.{IsAllowed}
use civicpatch_tools.Collector.Handlers.Whole.{handlers-IsAllowed}
use civicpatch_tools.Collector.Handlers.Run.{
  EndsInOrder, people_collector-EndsInOrder, people_collector-Walks,
}
use civicpatch_tools.Collector.Handlers.Turned.{is_placed}
use civicpatch_tools.Engine.Walk.{Walks}
use civicpatch_tools.Collector.Handlers.Review.{ReviewRaises, find_jurisdiction_url-ReviewRaises}

abbrev same_url : String → String
same_url url = url

abbrev one_domain : String → String → Bool
one_domain a b = true

abbrev no_progress : PeopleCollectorData Unit Unit → ℕ → ℕ
no_progress run_data at = at

abbrev limits : PipelineRunLimits
limits = record { pipeline_run_cap_usd = 100; max_pages = 5 }

abbrev blank_page : Link
blank_page = record (new_link "a.gov") { status = LinkStatus.preprocessed_no_content }

abbrev crawl : PeopleCollectorData Unit Unit
crawl = record {
  config = record { url = "a.gov"; source_urls = none };
  frontier = record { links = ("a.gov", blank_page) ∷ []; queue = [] };
  research_municipality_step = none;
  preprocess_page_content_step = none;
  process_page_content_step = none;
  find_jurisdiction_url_step = none;
  send_success_step = none;
  send_error_step = none;
  issues = [];
  error_step = none;
  error_detail = none;
  stop_reason = none;
}

abbrev context : Context Unit Unit
context = record {
  run_data = crawl;
  current_state = step PeopleCollectorStep.scrape_page;
  pipeline_run_id = "run";
  created_at = 0;
  updated_at = 0;
  progress = 0;
  failure = none;
}

abbrev world : World Unit Unit
world = record {
  prepared = gave tt;
  researched = gave (record { source_urls = [] });
  scraped = fetched "a" "a.gov";
  preprocessed = threw "RuntimeError: ";
  processed = threw "RuntimeError: ";
  total_cost = 0;
  cleaned = gave tt;
  saved = gave tt;
  sent_success = threw "HTTPError: ";
  sent_error = threw "HTTPError: ";
  found_url = gave (record { discovered_url = some "a.gov/home" });
}

abbrev turn : Turn PeopleCollectorStep (World Unit Unit)
turn = record { polled = unreachable; polled_at = 0; answers = world; stepped_at = 1 }

abbrev turns : List (Turn PeopleCollectorStep (World Unit Unit))
turns = turn ∷ turn ∷ turn ∷ turn ∷ turn ∷ []

handlers-IsAllowed_example :
    IsAllowed
      (status PipelineRunStatus.init)
      (start_job limits same_url same_url one_domain no_progress context (gave tt))
unfolding get state_eqb
handlers-IsAllowed_example =
    handlers-IsAllowed limits same_url same_url one_domain no_progress
      (status PipelineRunStatus.init)
      (λ c w. start_job limits same_url same_url one_domain no_progress c w.prepared) refl context
      world

people_collector-EndsInOrder_example :
    EndsInOrder limits same_url same_url one_domain no_progress
      (run_pipeline
        (people_collector limits same_url same_url one_domain no_progress)
        context
        0
        turns).1
unfolding is_placed
people_collector-EndsInOrder_example =
    people_collector-EndsInOrder limits same_url same_url one_domain no_progress context 0 turns
      refl

find_jurisdiction_url-ReviewRaises_example :
    ReviewRaises same_url same_url one_domain no_progress context
      (record { discovered_url = some "a.gov/home" })
unfolding get_link
find_jurisdiction_url-ReviewRaises_example =
    find_jurisdiction_url-ReviewRaises same_url same_url one_domain no_progress context "a.gov/home"
      blank_page refl refl refl refl

people_collector-Walks_example :
    Walks
      (people_collector limits same_url same_url one_domain no_progress)
      context.current_state
      (run_pipeline
        (people_collector limits same_url same_url one_domain no_progress)
        context
        0
        turns).0
people_collector-Walks_example =
    people_collector-Walks limits same_url same_url one_domain no_progress context 0 turns
