-- ===== src/Collector/Crawl/Synced.antt =====
-- Wherever a crawl comes to, its queue agrees with its links.
use civicpatch_tools.Prelude.{ℕ, String}
use civicpatch_tools.Collector.Frontier.{LinkFrontier}
use civicpatch_tools.Collector.Frontier.Sync.{InSync}
use civicpatch_tools.Collector.Frontier.Changes.{
  from_urls-InSync, add-InSync, add_front-InSync, update_link-InSync, mark_status-InSync,
}
use civicpatch_tools.Collector.Frontier.Next.{Offers, next_pending_lem}
use civicpatch_tools.Collector.Discovery.Synced.{add_relevant_urls-InSync}
use civicpatch_tools.Collector.Scrape.Retry.{scrape_page-InSync}
use civicpatch_tools.Collector.Crawl.{
  Change, adds, adds_front, finds, updates, marks, Crawl, starts, changes, scrapes,
}

module _ (canonical_url format_url : String → String) where
  Change-InSync : {f g : LinkFrontier} → Change canonical_url format_url f g → InSync f → InSync g
  Change-InSync (adds f urls) s = add-InSync canonical_url format_url f urls s
  Change-InSync (adds_front f urls) s = add_front-InSync canonical_url format_url f urls s
  Change-InSync (finds f rules urls) s =
      add_relevant_urls-InSync canonical_url format_url rules f urls s
  Change-InSync (updates f url change keeps) s =
      update_link-InSync canonical_url f url change (λ l. (keeps l).0) s
  Change-InSync (marks f url status extra other keeps) s =
      mark_status-InSync canonical_url f url status extra other (λ l. (keeps l).0) s

  Crawl-Synced : {n : ℕ} {f : LinkFrontier} → Crawl canonical_url format_url n f → InSync f
  Crawl-Synced (starts urls) = from_urls-InSync canonical_url format_url urls
  Crawl-Synced (changes crawl change) = Change-InSync change (Crawl-Synced crawl)
  Crawl-Synced (scrapes {n} {f} crawl link outcome held pending) =
      scrape_page-InSync canonical_url f link outcome (Crawl-Synced crawl)

  -- Wherever a crawl comes to from its first addresses, by adding addresses, finding a page's links,
  -- updates of neither status nor attempts, marks other than pending and scrapes of pending links, in
  -- whatever order, the queue is exactly the pending links, each once; so `next_pending` offers a
  -- pending link, and offers none only if no link is pending.
  pub Crawl-InSync :
      {n : ℕ} {f : LinkFrontier} → Crawl canonical_url format_url n f → InSync f × Offers f
  Crawl-InSync {n} {f} crawl = let s = Crawl-Synced crawl in (s, next_pending_lem f s)
