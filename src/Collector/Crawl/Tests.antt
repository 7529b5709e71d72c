-- ===== src/Collector/Crawl/Tests.antt =====
-- A crawl of two links: the first times out, a page's links join the frontier, and it is tried again.
use civicpatch_tools.Prelude.{
  String, ◌≡◌, ◌+◌, ◌*◌, ◌≤◌, refl, leb, true, false, [], ◌∷◌, some, none, length, List,
}
use civicpatch_tools.Collector.Frontier.{
  Link, LinkFrontier, NavigationFailureReason, new_link, from_urls,
}
use civicpatch_tools.Collector.Frontier.Sync.{InSync}
use civicpatch_tools.Collector.Frontier.Next.{Offers}
use civicpatch_tools.Collector.Discovery.{Rules, add_relevant_urls}
use civicpatch_tools.Collector.Scrape.{max_scrape_attempts, Outcome, failed, scrape_page}
use civicpatch_tools.Collector.Scrape.Retry.{HasAttemptsLeft, scrapes_left}
use civicpatch_tools.Collector.Crawl.{Crawl, starts, changes, scrapes, finds}
use civicpatch_tools.Collector.Crawl.Synced.{Crawl-InSync}
use civicpatch_tools.Collector.Crawl.Bounded.{Crawl-IsBounded}

abbrev same_url : String → String
same_url url = url

abbrev two : LinkFrontier
two = from_urls same_url same_url ("a" ∷ "b" ∷ [])

abbrev timeout : Outcome
timeout = failed (some NavigationFailureReason.net_timeout) (some "timed out")

abbrev tried : LinkFrontier
tried = (scrape_page same_url two (new_link "a") timeout).0

-- A rule by which the fewest references come first.
abbrev rules : Rules
rules = record {
  in_domain = λ url. true;
  is_blacklisted = λ url. false;
  comment_of = λ url link_url. none;
  text_of = λ url link_url. none;
  precedes = λ a b. leb a.num_references b.num_references;
}

abbrev found : LinkFrontier
found = add_relevant_urls same_url same_url rules tried ("c" ∷ "b" ∷ "b" ∷ [])

-- "a" has none yet, "c" one, "b" two.
found-queue : found.queue ≡ "a" ∷ "c" ∷ "b" ∷ []
unfolding civicpatch_tools.Collector.Discovery.add_relevant_urls
    civicpatch_tools.Collector.Discovery.by_priority
    civicpatch_tools.Collector.Discovery.relevant_urls civicpatch_tools.Prelude.Sort.sorted
    civicpatch_tools.Prelude.Dict.group_by civicpatch_tools.Prelude.Dict.append_to
    civicpatch_tools.Prelude.Dict.group_of civicpatch_tools.Prelude.Dict.get
    civicpatch_tools.Prelude.Dict.put civicpatch_tools.Prelude.Sort.max_from
    civicpatch_tools.Collector.Frontier.from_urls civicpatch_tools.Collector.Frontier.add
    civicpatch_tools.Collector.Frontier.add_one civicpatch_tools.Collector.Scrape.scrape_page
    civicpatch_tools.Collector.Frontier.update_link civicpatch_tools.Collector.Frontier.at_key
    civicpatch_tools.Collector.Frontier.mark_status civicpatch_tools.Collector.Frontier.status_eqb
    civicpatch_tools.Collector.Scrape.record_failure civicpatch_tools.Collector.Scrape.should_retry
    civicpatch_tools.Collector.Frontier.requeue civicpatch_tools.Collector.Frontier.dequeue
    civicpatch_tools.Collector.Discovery.relevant_url
    civicpatch_tools.Collector.Discovery.refer_or_add civicpatch_tools.Collector.Discovery.referred
    civicpatch_tools.Collector.Discovery.found_link
found-queue = refl

found-Crawl : Crawl same_url same_url 1 found
unfolding from_urls
found-Crawl =
    changes (scrapes (starts ("a" ∷ "b" ∷ [])) (new_link "a") timeout refl refl)
      (finds tried rules ("c" ∷ "b" ∷ "b" ∷ []))

Crawl-InSync_example : InSync found × Offers found
Crawl-InSync_example = Crawl-InSync same_url same_url found-Crawl

Crawl-IsBounded_example :
    (1 + scrapes_left found.links ≤ max_scrape_attempts * length found.links)
    × HasAttemptsLeft found.links
Crawl-IsBounded_example = Crawl-IsBounded same_url same_url found-Crawl
