-- ===== src/Collector/Crawl.antt =====
-- What a crawl does to its frontier, one call after another: the operations on a `LinkFrontier`
-- (pipelines/src/runners/pipeline03_people_collector/schemas.py) as the steps call them, `add_relevant_urls`
-- (utils/link_discovery.py) and `scrape_page`, the only caller of `dequeue` and `requeue`. A crawl that
-- starts again with another address (transitions/main.py) starts with another frontier.
mod Tests
pub mod Synced
pub mod Budget
pub mod Bounded
use civicpatch_tools.Prelude.{ℕ, suc, String, ◌≡◌, ◌≢◌, some, List, string_eq}
use civicpatch_tools.Prelude.Dict.{get}
use civicpatch_tools.Collector.Frontier.{
  Link, LinkStatus, LinkFrontier, from_urls, add, add_front, update_link, mark_status,
}
use civicpatch_tools.Collector.Discovery.{Rules, add_relevant_urls}
use civicpatch_tools.Collector.Scrape.{Outcome, scrape_page}

-- An update that leaves the status and the attempts alone.
abbrev pub LeavesAlone : (Link → Link) → Type 0
LeavesAlone updates =
    (l : Link) → ((updates l).status ≡ l.status) × ((updates l).attempts ≡ l.attempts)

module _ (canonical_url format_url : String → String) where
  -- One call that is no scrape. What a caller updates is neither the status nor the attempts, and
  -- `mark_status` is given another status than pending.
  pub data Change : LinkFrontier → LinkFrontier → Type 0 where
    adds : (f : LinkFrontier) (urls : List String) → Change f (add canonical_url format_url f urls)
    adds_front :
        (f : LinkFrontier) (urls : List String)
        → Change f (add_front canonical_url format_url f urls)
    finds :
        (f : LinkFrontier) (rules : Rules) (urls : List String)
        → Change f (add_relevant_urls canonical_url format_url rules f urls)
    updates :
        (f : LinkFrontier) (url : String) (change : Link → Link)
        → LeavesAlone change
        → Change f (update_link canonical_url f url change)
    marks :
        (f : LinkFrontier) (url : String) (status : LinkStatus) (extra : Link → Link)
        → status ≢ LinkStatus.pending
        → LeavesAlone extra
        → Change f (mark_status canonical_url f url status extra)

  -- The frontiers that a crawl can come to, and how many scrapes it has given. A scrape is of a pending
  -- link that the frontier holds under its own address, and may end in any way.
  pub data Crawl : ℕ → LinkFrontier → Type 0 where
    starts : (urls : List String) → Crawl 0 (from_urls canonical_url format_url urls)
    changes : {n : ℕ} {f g : LinkFrontier} → Crawl n f → Change f g → Crawl n g
    scrapes :
        {n : ℕ} {f : LinkFrontier}
        → Crawl n f
        → (link : Link) (outcome : Outcome) → get (canonical_url link.url) f.links ≡ some link
        → link.status ≡ LinkStatus.pending
        → Crawl (suc n) (scrape_page canonical_url f link outcome).0
