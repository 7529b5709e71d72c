-- ===== src/Collector/Handlers/Legal.antt =====
-- The transitions against the graph.
use civicpatch_tools.Prelude.{
  ℕ, String, ◌≡◌, inl, inr, refl, Bool, true, not, ◌&&◌, Option, none, some, List, [], ◌∷◌, mem,
  ◌==◌, Bool-cases, nat_eq, string_eq, option_eq,
}
use civicpatch_tools.StateGraph.{step, state_eq, next_states, is_empty}
use civicpatch_tools.Engine.{returned, raised}
use civicpatch_tools.Collector.Graph.{
  PeopleCollectorStep, PeopleCollectorState, step_eq, step_eqb, people_collector_transitions,
}
use civicpatch_tools.Collector.Frontier.{
  Link, LinkStatus, status_eq, LinkFrontier, all_with_status, status_of,
}
use civicpatch_tools.Collector.Scrape.{scrape_page as scrape_link}
use civicpatch_tools.Collector.Progress.{PipelineRunLimits, ProcessNext}
use civicpatch_tools.Collector.Progress.{cleanup as stop_for, scrape_page as keep_on}
use civicpatch_tools.Collector.Handlers.{
  FindJurisdictionUrlStep, ProcessPageContentStep, PeopleCollectorData, Attempt, gave, threw, World,
  all_records, is_known, Heuristics, error_found, issues_found,
}
use civicpatch_tools.Collector.Handlers.Steps.{
  Context, Answer, all_pages_failed, failed, failed_plainly, all_failed, scrape_page_transition,
  preprocess_page_content_transition, state_of, process_page_content_transition,
}
use civicpatch_tools.Collector.Handlers.Closing.{
  after_heuristics, follow_discovered, after_search, is_new_domain, review_output_transition,
  find_jurisdiction_url_transition,
}

-- The engine's own test of a transition.
unfoldable pub is_allowed : PeopleCollectorState → PeopleCollectorState → Bool
unfolding next_states step_eqb
is_allowed current next = mem next (next_states people_collector_transitions current)

state_of-is_allowed :
    (next : ProcessNext)
    → is_allowed (step PeopleCollectorStep.process_page_content) (state_of next) ≡ true
unfolding is_allowed
state_of-is_allowed (stop_for reason) = refl
state_of-is_allowed keep_on = refl

module _ {Rec Pre : Type 0} where
  -- A transition of state `s` raised, or names a state that the graph allows after `s`.
  abbrev pub IsAllowed : PeopleCollectorState → Answer Rec Pre → Type 0
  IsAllowed s (returned context next) = is_allowed s next ≡ true
  IsAllowed s (raised text) = Unit

  all_pages_failed-IsAllowed :
      (context : Context Rec Pre) (found : Option FindJurisdictionUrlStep)
      → IsAllowed (step PeopleCollectorStep.scrape_page) (all_pages_failed context found)
        × IsAllowed
            (step PeopleCollectorStep.preprocess_page_content)
            (all_pages_failed context found)
  unfolding is_allowed all_pages_failed failed
  all_pages_failed-IsAllowed context none = (refl, refl)
  all_pages_failed-IsAllowed context (some found) = (refl, refl)

  after_heuristics-IsAllowed :
      (canonical_url format_url : String → String) (same_domain : String → String → Bool)
      (percentage : PeopleCollectorData Rec Pre → ℕ → ℕ) (context : Context Rec Pre)
      (found : Heuristics)
      → IsAllowed
          (step PeopleCollectorStep.review_output)
          (after_heuristics canonical_url format_url same_domain percentage context found)
  unfolding is_allowed after_heuristics failed_plainly
  after_heuristics-IsAllowed canonical_url format_url same_domain percentage context
        (error_found e) =
      refl
  after_heuristics-IsAllowed canonical_url format_url same_domain percentage context
        (issues_found is) =
      refl

module _ {Rec Pre : Type 0} (limits : PipelineRunLimits)
    (canonical_url format_url : String → String) (same_domain : String → String → Bool)
    (percentage : PeopleCollectorData Rec Pre → ℕ → ℕ) where
  pub scrape_page_transition-IsAllowed :
      (context : Context Rec Pre) (world : World Rec Pre) (page : Option Link)
      → IsAllowed (step PeopleCollectorStep.scrape_page) (
          scrape_page_transition limits canonical_url format_url same_domain percentage context
            world page)
  unfolding is_allowed scrape_page_transition
  scrape_page_transition-IsAllowed context world none =
      elim (Bool-cases (
        all_failed limits canonical_url format_url same_domain percentage
          context.run_data.frontier)) [
            | inl t ↦
                rw t
                  (all_pages_failed-IsAllowed context context.run_data.find_jurisdiction_url_step).0
            | inr f ↦ rw f refl
          ]
  scrape_page_transition-IsAllowed context world (some page) =
      let scraped = scrape_link canonical_url context.run_data.frontier page world.scraped in
      elim (Bool-cases (status_of canonical_url scraped.0 page.url == some LinkStatus.scraped)) [
        | inl t ↦ rw t refl
        | inr f ↦ rw f refl
      ]

  pub preprocess-IsAllowed :
      (context : Context Rec Pre) (preprocessed : Attempt (LinkFrontier × Pre)) (page : Option Link)
      → IsAllowed (step PeopleCollectorStep.preprocess_page_content) (
          preprocess_page_content_transition limits canonical_url format_url same_domain percentage
            context preprocessed page)
  unfolding is_allowed preprocess_page_content_transition
  preprocess-IsAllowed context preprocessed none =
      elim (Bool-cases
        (is_empty (all_with_status context.run_data.frontier (LinkStatus.preprocessed ∷ [])))) [
          | inl t ↦
              rw t
                (all_pages_failed-IsAllowed context context.run_data.find_jurisdiction_url_step).1
          | inr f ↦ rw f refl
        ]
  preprocess-IsAllowed context (threw text) (some page) = tt
  preprocess-IsAllowed context (gave (frontier, result)) (some page) =
      elim (Bool-cases
        (status_of canonical_url frontier page.url == some LinkStatus.preprocessed)) [
          | inl t ↦ rw t refl
          | inr f ↦ rw f refl
        ]

  pub process-IsAllowed :
      (context : Context Rec Pre) (world : World Rec Pre)
      (processed : Attempt (LinkFrontier × ProcessPageContentStep Rec)) (pages : List Link)
      → IsAllowed (step PeopleCollectorStep.process_page_content) (
          process_page_content_transition limits canonical_url format_url same_domain percentage
            context world processed pages)
  unfolding is_allowed process_page_content_transition
  process-IsAllowed context world processed [] = refl
  process-IsAllowed context world (threw text) (page ∷ pages) = refl
  process-IsAllowed context world (gave (frontier, result)) (page ∷ pages) = state_of-is_allowed _

  pub review-IsAllowed :
      (context : Context Rec Pre) (found : Option (ProcessPageContentStep Rec))
      → IsAllowed
          (step PeopleCollectorStep.review_output)
          (review_output_transition canonical_url format_url same_domain percentage context found)
  unfolding is_allowed review_output_transition
  review-IsAllowed context none = tt
  review-IsAllowed context (some result) =
      elim (Bool-cases (
        is_empty (all_records result)
        && not (is_known context.run_data.find_jurisdiction_url_step))) [
          | inl t ↦ rw t refl
          | inr f ↦
              rw f (
                after_heuristics-IsAllowed canonical_url format_url same_domain percentage context
                  _)
        ]

  follow-IsAllowed :
      (context : Context Rec Pre) (discovered : Option String)
      → IsAllowed
          (step PeopleCollectorStep.find_jurisdiction_url)
          (follow_discovered canonical_url format_url same_domain percentage context discovered)
  unfolding is_allowed follow_discovered failed_plainly
  follow-IsAllowed context none = refl
  follow-IsAllowed context (some discovered) =
      elim (Bool-cases (same_domain discovered context.run_data.config.url)) [
        | inl t ↦ rw t refl
        | inr f ↦ rw f refl
      ]

  search-IsAllowed :
      (context : Context Rec Pre) (discovered : Option String) (root : Option Link)
      → IsAllowed
          (step PeopleCollectorStep.find_jurisdiction_url)
          (after_search canonical_url format_url same_domain percentage context discovered root)
  unfolding is_allowed after_search failed
  search-IsAllowed context discovered none = follow-IsAllowed context discovered
  search-IsAllowed context discovered (some root) =
      elim (Bool-cases (
        is_known root.failure_reason
        && not (
            is_new_domain canonical_url format_url same_domain percentage discovered
              context.run_data.config.url))) [
                | inl t ↦ rw t refl
                | inr f ↦ rw f (follow-IsAllowed context discovered)
              ]

  pub find-IsAllowed :
      (context : Context Rec Pre) (found : Attempt FindJurisdictionUrlStep)
      → IsAllowed (step PeopleCollectorStep.find_jurisdiction_url) (
          find_jurisdiction_url_transition canonical_url format_url same_domain percentage context
            found)
  unfolding find_jurisdiction_url_transition
  find-IsAllowed context (threw text) = tt
  find-IsAllowed context (gave result) = search-IsAllowed _ result.discovered_url _
