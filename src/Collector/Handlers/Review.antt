-- ===== src/Collector/Handlers/Review.antt =====
-- What `review_output_transition` asks of the run before it.
use civicpatch_tools.Prelude.{ℕ, String, ◌≡◌, refl, Bool, true, none, some}
use civicpatch_tools.StateGraph.{step}
use civicpatch_tools.Engine.{returned, raised}
use civicpatch_tools.Collector.Graph.{PeopleCollectorStep}
use civicpatch_tools.Collector.Frontier.{Link, get_link}
use civicpatch_tools.Collector.Handlers.{FindJurisdictionUrlStep, PeopleCollectorData, gave}
use civicpatch_tools.Collector.Handlers.Steps.{Context}
use civicpatch_tools.Collector.Handlers.Closing.{
  review_output_transition, find_jurisdiction_url_transition, after_search, follow_discovered,
  is_new_domain,
}

module _ {Rec Pre : Type 0} (canonical_url format_url : String → String)
    (same_domain : String → String → Bool) (percentage : PeopleCollectorData Rec Pre → ℕ → ℕ) where
  -- The search sends the run to review, and review raises.
  abbrev pub ReviewRaises : Context Rec Pre → FindJurisdictionUrlStep → Type 0
  ReviewRaises context found =
      (next : Context Rec Pre) × (find_jurisdiction_url_transition canonical_url format_url
          same_domain percentage context (gave found)
        ≡ returned next (step PeopleCollectorStep.review_output))
      × (review_output_transition canonical_url format_url same_domain percentage next
            next.run_data.process_page_content_step
          ≡ raised "AssertionError: ")

  -- If no page was processed, the root link did not fail to load, and the search finds an address on
  -- the domain that the run already has, then the search sends the run to review and review raises.
  pub find_jurisdiction_url-ReviewRaises :
      (context : Context Rec Pre) (discovered : String) (root : Link)
      → context.run_data.process_page_content_step ≡ none
      → get_link canonical_url context.run_data.frontier context.run_data.config.url ≡ some root
      → root.failure_reason ≡ none
      → same_domain discovered context.run_data.config.url ≡ true
      → ReviewRaises context (record { discovered_url = some discovered })
  unfolding find_jurisdiction_url_transition after_search follow_discovered is_new_domain
      review_output_transition
  find_jurisdiction_url-ReviewRaises context discovered root unread found loaded same = (
    record context {
      run_data = record context.run_data {
        find_jurisdiction_url_step = some (record { discovered_url = some discovered });
      };
    },
    rw (found, loaded, same) refl,
    rw unread refl,
  )
