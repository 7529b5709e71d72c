-- ===== src/Collector/Discovery.antt =====
-- pipelines/src/runners/pipeline03_people_collector/utils/link_discovery.py: `add_relevant_urls`, by which
-- a page's links join the frontier. What it asks of configuration and of patterns (the domain, the
-- blacklist, the comment and the text of a link, and which of two links comes first) is an argument.
pub mod Synced
pub mod Found
mod Tests
use civicpatch_tools.Prelude.{
  string_eq, ℕ, suc, String, Bool, true, Option, none, some, List, [], ◌∷◌, ◌++◌, ◌+◌, ◌==◌,
  if◌then◌else◌,
}
use civicpatch_tools.Prelude.Dict.{Dict, get, put}
use civicpatch_tools.Prelude.Sort.{sorted}
use civicpatch_tools.Collector.Frontier.{Link, LinkStatus, LinkFrontier, status_eq, new_link}

pub record Rules : Type 0 where
  pub in_domain : String → Bool
  pub is_blacklisted : String → Bool
  pub comment_of : String → String → Option String
  pub text_of : String → String → Option String
  pub precedes : Link → Link → Bool

-- A link that is pending has one more reference.
unfoldable pub referred : Link → Link
referred link =
    if link.status == LinkStatus.pending
    then record link { num_references = link.num_references + 1 }
    else link

-- `_pending_sort_key(new_links[a]) <= _pending_sort_key(new_links[b])`: every queued key has a link.
pending_leb : (Link → Link → Bool) → Option Link → Option Link → Bool
pending_leb precedes (some a) (some b) = precedes a b
pending_leb precedes _ _ = true

module _ (canonical_url format_url : String → String) (rules : Rules) where
  -- The link of an address that is new.
  unfoldable pub found_link : String → Link
  found_link link_url = record (new_link (format_url link_url)) {
    num_references = 1;
    comment = rules.comment_of (format_url link_url) link_url;
    text = rules.text_of (format_url link_url) link_url;
  }

  -- One turn of the loop, with what the frontier holds at the address's key. A known link that is not
  -- pending is put back as it was.
  unfoldable pub refer_or_add : LinkFrontier → String → Option Link → LinkFrontier
  unfolding referred found_link
  refer_or_add frontier link_url (some link) = record frontier {
    links = put (canonical_url (format_url link_url)) (referred link) frontier.links;
  }
  refer_or_add frontier link_url none =
      if rules.is_blacklisted (format_url link_url) then frontier else record {
        links = put (canonical_url (format_url link_url)) (found_link link_url) frontier.links;
        queue = frontier.queue ++ canonical_url (format_url link_url) ∷ [];
      }

  unfoldable pub relevant_url : LinkFrontier → String → LinkFrontier
  unfolding refer_or_add get put
  relevant_url frontier link_url =
      if rules.in_domain link_url
      then refer_or_add frontier link_url (get (canonical_url (format_url link_url)) frontier.links)
      else frontier

  unfoldable pub relevant_urls : LinkFrontier → List String → LinkFrontier
  unfolding relevant_url
  relevant_urls frontier [] = frontier
  relevant_urls frontier (url ∷ urls) = relevant_urls (relevant_url frontier url) urls

  -- The queue is sorted again once the links have joined it.
  unfoldable pub by_priority : LinkFrontier → LinkFrontier
  unfolding pending_leb get sorted
  by_priority frontier = record frontier {
    queue =
        sorted (λ a b. pending_leb rules.precedes (get a frontier.links) (get b frontier.links))
          frontier.queue;
  }

  unfoldable pub add_relevant_urls : LinkFrontier → List String → LinkFrontier
  unfolding relevant_urls by_priority
  add_relevant_urls frontier urls = by_priority (relevant_urls frontier urls)
