-- ===== src/Collector/Scrape.antt =====
-- pipelines/src/runners/pipeline03_people_collector/steps/step_02_scrape_page/scrape_page.py: one
-- scrape of one link. What the browser and the disk did is an argument, `Outcome`.
mod Tests
pub mod Retry
use civicpatch_tools.Prelude.{
  ℕ, zero, suc, ◌+◌, String, Bool, true, false, ◌&&◌, Option, none, some, List, [], ◌∷◌, ltb,
  length, keep, if◌then◌else◌,
}
use civicpatch_tools.Prelude.Dict.{Dict, values}
use civicpatch_tools.Collector.Frontier.{
  Link, LinkStatus, LinkFrontier, NavigationFailureReason, dequeue, requeue, update_link,
}

-- constants.py
abbrev pub max_scrape_attempts : ℕ
max_scrape_attempts = 2

-- `failure_reason in RETRYABLE_FAILURE_REASONS`
is_retryable : Option NavigationFailureReason → Bool
is_retryable (some NavigationFailureReason.net_timeout) = true
is_retryable (some NavigationFailureReason.net_aborted) = true
is_retryable (some NavigationFailureReason.http_429) = true
is_retryable (some NavigationFailureReason.http_5xx) = true
is_retryable _ = false

unfoldable pub should_retry : Option NavigationFailureReason → ℕ → Bool
unfolding is_retryable
should_retry failure_reason attempts =
    ltb attempts max_scrape_attempts && is_retryable failure_reason

-- `_fetch_and_cache` returned a folder and the final URL, or raised: a `NavigationError` carries a
-- reason and a source, any other exception neither.
pub data Outcome : Type 0 where
  fetched : (folder_name final_url : String) → Outcome
  failed :
      (failure_reason : Option NavigationFailureReason) (failure_source : Option String) → Outcome

is_visited : Link → Bool
is_visited l = elim l.visit_order [ none ↦ false | some n ↦ true ]

-- `_next_visit_order`
pub next_visit_order : LinkFrontier → ℕ
unfolding is_visited
next_visit_order frontier = length (keep is_visited (values frontier.links)) + 1

abbrev pub scraped_update : String → ℕ → Link → Link
scraped_update folder_name visit_order l = record l {
  status = LinkStatus.scraped;
  folder_name = folder_name;
  visit_order = some visit_order;
}

abbrev pub retry_update : Option NavigationFailureReason → Option String → ℕ → Link → Link
retry_update failure_reason failure_source attempts l = record l {
  attempts = attempts;
  failure_reason = failure_reason;
  failure_source = failure_source;
}

abbrev pub error_update : Option NavigationFailureReason → Option String → ℕ → ℕ → Link → Link
error_update failure_reason failure_source visit_order attempts l = record l {
  status = LinkStatus.error;
  failure_reason = failure_reason;
  failure_source = failure_source;
  visit_order = some visit_order;
  attempts = attempts;
}

module _ (canonical_url : String → String) where
  -- `_record_failure`
  unfoldable pub record_failure :
      LinkFrontier
      → Link
      → Option NavigationFailureReason
      → Option String
      → ℕ
      → LinkFrontier × String
  unfolding should_retry requeue update_link
  record_failure frontier link failure_reason failure_source visit_order =
      let attempts = link.attempts + 1 in
      if should_retry failure_reason attempts
      then (
        requeue canonical_url frontier link.url
            (retry_update failure_reason failure_source attempts),
        link.url,
      )
      else (
        update_link canonical_url frontier link.url
            (error_update failure_reason failure_source visit_order attempts),
        link.url,
      )

  unfoldable pub scrape_page : LinkFrontier → Link → Outcome → LinkFrontier × String
  unfolding record_failure next_visit_order dequeue update_link
  scrape_page frontier link (fetched folder_name final_url) = (
    update_link canonical_url (dequeue canonical_url frontier link.url) link.url
        (scraped_update folder_name (next_visit_order frontier)),
    final_url,
  )
  scrape_page frontier link (failed failure_reason failure_source) =
      record_failure (dequeue canonical_url frontier link.url) link failure_reason failure_source
        (next_visit_order frontier)
