-- ===== src/Collector/Scrape/Tests.antt =====
-- Scrapes of the head of a small queue.
use civicpatch_tools.Prelude.{String, ◌≡◌, refl, [], ◌∷◌, some, none, arith}
use civicpatch_tools.Collector.Frontier.{LinkFrontier, NavigationFailureReason, new_link, from_urls}
use civicpatch_tools.Collector.Scrape.{Outcome, failed, scrape_page}
use civicpatch_tools.Collector.Scrape.Retry.{scrape_page-UsesUp, UsesUp, HasAttemptsLeft}

abbrev same_url : String → String
same_url url = url

abbrev two : LinkFrontier
two = from_urls same_url same_url ("a" ∷ "b" ∷ [])

abbrev timeout : Outcome
timeout = failed (some NavigationFailureReason.net_timeout) (some "timed out")

-- The first timeout sends the link to the tail.
scrape_page-requeues : (scrape_page same_url two (new_link "a") timeout).0.queue ≡ "b" ∷ "a" ∷ []
unfolding scrape_page from_urls
scrape_page-requeues = refl

scrape_page-retires :
    (scrape_page same_url two (new_link "a") (failed none none)).0.queue ≡ "b" ∷ []
unfolding scrape_page from_urls
scrape_page-retires = refl

two-HasAttemptsLeft : HasAttemptsLeft two.links
unfolding from_urls
two-HasAttemptsLeft key l e p = ground arith

scrape_page-UsesUp_example :
    UsesUp two.links (scrape_page same_url two (new_link "a") timeout).0.links
unfolding from_urls
scrape_page-UsesUp_example =
    scrape_page-UsesUp same_url two (new_link "a") timeout refl refl two-HasAttemptsLeft
