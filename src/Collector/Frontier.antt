-- ===== src/Collector/Frontier.antt =====
-- pipelines/src/runners/pipeline03_people_collector/schemas.py: `Link` and `LinkFrontier`, the links
-- that a crawl knows and the queue of those still to scrape; utils/links.py passes its queries on.
-- `canonical_url` and `format_url` (shared/src/shared/utils/url_utils.py) are parameters: nothing
-- here depends on what they compute. A keyword argument list `**updates` is a function on the link.
mod Tests
pub mod Sync
pub mod Changes
pub mod Next
use civicpatch_tools.Prelude.{
  ℕ, String, ◌≡◌, ◌↔◌, Bool, true, false, not, Option, none, some, List, [], ◌∷◌, ◌++◌, ◌==◌, arith,
  first, keep, length, any_of, if◌then◌else◌, string_eq, HasEq, nat_eqb,
}
use civicpatch_tools.Prelude.Dict.{Dict, get, put, values}

pub data LinkStatus : Type 0 where
  pending scraped preprocessed preprocessed_no_content processed_irrelevant
        processed_heuristics_fail done error :
      LinkStatus

status_place : LinkStatus → ℕ
status_place LinkStatus.pending = 0
status_place LinkStatus.scraped = 1
status_place LinkStatus.preprocessed = 2
status_place LinkStatus.preprocessed_no_content = 3
status_place LinkStatus.processed_irrelevant = 4
status_place LinkStatus.processed_heuristics_fail = 5
status_place LinkStatus.done = 6
status_place LinkStatus.error = 7

unfoldable pub status_eqb : LinkStatus → LinkStatus → Bool
unfolding status_place
status_eqb a b = nat_eqb (status_place a) (status_place b)

pub status_eqb_iff : (a b : LinkStatus) → (status_eqb a b ≡ true) ↔ (a ≡ b)
unfolding status_eqb
status_eqb_iff a b = ground arith

instance abbrev pub status_eq : HasEq LinkStatus
status_eq = record { eqb = status_eqb; eqb_iff = status_eqb_iff }

-- steps/step_02_scrape_page/scrape_exceptions.py
pub data NavigationFailureReason : Type 0 where
  net_timeout net_dns_failure net_connection_refused net_aborted : NavigationFailureReason
  http_403 http_429 http_5xx unknown : NavigationFailureReason

-- steps/step_04_process_page_content/heuristics_failure.py
pub data HeuristicsFailure : Type 0 where
  name_not_in_text email_not_in_text phone_not_in_text : HeuristicsFailure
  phone_not_normalizable url_not_in_text : HeuristicsFailure

pub record Link : Type 0 where
  pub url : String
  pub status : LinkStatus
  pub folder_name : String
  pub num_references : ℕ
  pub comment : Option String
  pub text : Option String
  pub failure_reason : Option NavigationFailureReason
  pub failure_source : Option String
  pub visit_order : Option ℕ
  pub attempts : ℕ
  pub heuristics_failures : List HeuristicsFailure
  pub organization_ids : List String
  pub is_relevant : Option Bool
  pub relevant_urls : Option (List String)
  pub page_hash : Option String
  pub prompt_hash : Option String
  pub unchanged_since_source_page_id : Option String

pub record LinkFrontier : Type 0 where
  pub links : Dict String Link
  pub queue : List String

abbrev pub new_link : String → Link
new_link url = record {
  url = url;
  status = LinkStatus.pending;
  folder_name = "";
  num_references = 0;
  comment = none;
  text = none;
  failure_reason = none;
  failure_source = none;
  visit_order = none;
  attempts = 0;
  heuristics_failures = [];
  organization_ids = [];
  is_relevant = none;
  relevant_urls = none;
  page_hash = none;
  prompt_hash = none;
  unchanged_since_source_page_id = none;
}

-- `[k for k in queue if k != key]`
abbrev pub dropped : String → List String → List String
dropped key queue = keep (λ k. not (k == key)) queue

-- Changes the link at a key; a key that is not there leaves the frontier as it was.
unfoldable pub at_key : String → (Link → LinkFrontier) → LinkFrontier → Option Link → LinkFrontier
at_key key change frontier none = frontier
at_key key change frontier (some link) = change link

-- `links[queue[0]] if queue else None`
unfoldable pub head_link : List String → Dict String Link → Option Link
head_link [] links = none
head_link (key ∷ queue) links = get key links

unfoldable pub next_pending : LinkFrontier → Option Link
unfolding head_link get
next_pending frontier = head_link frontier.queue frontier.links

unfoldable pub next_with_status : LinkFrontier → LinkStatus → Option Link
unfolding next_pending status_eqb
next_with_status frontier status =
    if status == LinkStatus.pending
    then next_pending frontier
    else first (λ l. l.status == status) (values frontier.links)

unfoldable pub all_with_status : LinkFrontier → List LinkStatus → List Link
unfolding status_eqb
all_with_status frontier statuses =
    keep (λ l. any_of (λ s. l.status == s) statuses) (values frontier.links)

module _ (canonical_url : String → String) where
  unfoldable pub get_link : LinkFrontier → String → Option Link
  unfolding get
  get_link frontier url = get (canonical_url url) frontier.links

  -- `LinkStatus(link.status) if link else None`
  unfoldable pub status_of : LinkFrontier → String → Option LinkStatus
  unfolding get_link
  status_of frontier url = elim (get_link frontier url) [ none ↦ none | some l ↦ some l.status ]

  unfoldable pub dequeue : LinkFrontier → String → LinkFrontier
  dequeue frontier url = record frontier { queue = dropped (canonical_url url) frontier.queue }

  unfoldable pub requeue : LinkFrontier → String → (Link → Link) → LinkFrontier
  unfolding at_key get put
  requeue frontier url updates =
      let key = canonical_url url in
      at_key key
        (λ link. record {
          links = put key (updates (record link { status = LinkStatus.pending })) frontier.links;
          queue = dropped key frontier.queue ++ key ∷ [];
        })
        frontier (get key frontier.links)

  unfoldable pub update_link : LinkFrontier → String → (Link → Link) → LinkFrontier
  unfolding at_key get put
  update_link frontier url updates =
      let key = canonical_url url in
      at_key key (λ link. record frontier { links = put key (updates link) frontier.links })
        frontier (get key frontier.links)

  unfoldable pub mark_status : LinkFrontier → String → LinkStatus → (Link → Link) → LinkFrontier
  unfolding at_key get put status_eqb
  mark_status frontier url status extra =
      let key = canonical_url url in
      at_key key
        (λ link. record {
          links = put key (extra (record link { status = status })) frontier.links;
          queue =
              if status == LinkStatus.pending then frontier.queue else dropped key frontier.queue;
        })
        frontier (get key frontier.links)

module _ (canonical_url format_url : String → String) where
  -- One turn of the loop of `add`.
  unfoldable pub add_one : LinkFrontier → String → Option Link → LinkFrontier
  add_one frontier url (some link) = frontier
  add_one frontier url none = record {
    links = put (canonical_url url) (new_link (format_url url)) frontier.links;
    queue = frontier.queue ++ canonical_url url ∷ [];
  }

  unfoldable pub add : LinkFrontier → List String → LinkFrontier
  unfolding add_one get put
  add frontier [] = frontier
  add frontier (url ∷ urls) =
      add (add_one frontier url (get (canonical_url url) frontier.links)) urls

  -- `from_urls` is the same loop from nothing.
  unfoldable pub from_urls : List String → LinkFrontier
  unfolding add
  from_urls urls = add (record { links = []; queue = [] }) urls

  -- The loop of `add_front` leaves the keys that it added in a list of their own.
  unfoldable pub add_front_loop : Dict String Link → List String → List String → LinkFrontier
  unfolding add_one get put
  add_front_loop links added [] = record { links = links; queue = added }
  add_front_loop links added (url ∷ urls) =
      let next =
        add_one (record { links = links; queue = added }) url (get (canonical_url url) links) in
      add_front_loop next.links next.queue urls

  unfoldable pub add_front : LinkFrontier → List String → LinkFrontier
  unfolding add_front_loop
  add_front frontier urls =
      let seen = add_front_loop frontier.links [] urls in
      record { links = seen.links; queue = seen.queue ++ frontier.queue }
