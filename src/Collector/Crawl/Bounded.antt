-- ===== src/Collector/Crawl/Bounded.antt =====
-- A crawl gives no more scrapes than the links it knows allow.
use civicpatch_tools.Prelude.{
  ℕ, ◌+◌, ◌*◌, ◌≤◌, String, ◌≡◌, ◌≢◌, inl, inr, refl, sym, ◌∙◌, some, List, [], ◌∷◌, length, arith,
  Bool-cases, Option-cases, string_eq,
}
use civicpatch_tools.Prelude.Dict.{Dict, get, put}
use civicpatch_tools.Collector.Frontier.{
  Link, LinkStatus, LinkFrontier, new_link, at_key, add_one, add, from_urls, add_front_loop,
  add_front, dequeue, requeue, update_link, mark_status,
}
use civicpatch_tools.Collector.Discovery.{
  Rules, referred, found_link, refer_or_add, relevant_url, relevant_urls, by_priority,
  add_relevant_urls,
}
use civicpatch_tools.Collector.Discovery.Synced.{referred-status, referred-attempts}
use civicpatch_tools.Collector.Scrape.{
  max_scrape_attempts, Outcome, fetched, failed, should_retry, scrape_page, record_failure,
  next_visit_order, scraped_update, retry_update, error_update,
}
use civicpatch_tools.Collector.Scrape.Retry.{
  weight_retired, scrapes_left, HasAttemptsLeft, scrape_page-UsesUp,
}
use civicpatch_tools.Collector.Crawl.{
  Change, adds, adds_front, finds, updates, marks, Crawl, starts, changes, scrapes,
}
use civicpatch_tools.Collector.Crawl.Budget.{
  IsWithin, IsWithin-known, IsWithin-new, length-put_known, weight_same,
}

-- A link put in another's place, with the same status and attempts.
IsWithin-kept :
    (n : ℕ) (links : Dict String Link)
    → IsWithin n links
    → (key : String) (l old : Link) → get key links ≡ some old
    → l.status ≡ old.status
    → l.attempts ≡ old.attempts
    → IsWithin n (put key l links)
IsWithin-kept n links within key l old e s a =
    let same = weight_same l old s a in
    IsWithin-known n links within key l
      (λ p. let b = within.0 key old e (sym s ∙ p) in omega (arith, b, a)) old e
      (omega (arith, same))

module _ (canonical_url format_url : String → String) (n : ℕ) where
  add_one-IsWithin :
      (f : LinkFrontier) (url : String)
      → IsWithin n f.links
      → IsWithin n (add_one canonical_url format_url f url (get (canonical_url url) f.links)).links
  unfolding add_one
  add_one-IsWithin f url within = elim (Option-cases (get (canonical_url url) f.links)) [
    | inr (l, e) ↦ rw e within
    | inl e ↦ rw e (
        IsWithin-new n f.links within (canonical_url url) (new_link (format_url url))
          (λ p. omega arith) e)
  ]

  add-IsWithin :
      (urls : List String) (f : LinkFrontier)
      → IsWithin n f.links
      → IsWithin n (add canonical_url format_url f urls).links
  unfolding add
  add-IsWithin [] f within = within
  add-IsWithin (url ∷ urls) f within = add-IsWithin urls _ (add_one-IsWithin f url within)

  add_front_loop-IsWithin :
      (urls : List String) (links : Dict String Link) (added : List String)
      → IsWithin n links
      → IsWithin n (add_front_loop canonical_url format_url links added urls).links
  unfolding add_front_loop
  add_front_loop-IsWithin [] links added within = within
  add_front_loop-IsWithin (url ∷ urls) links added within =
      add_front_loop-IsWithin urls _ _
        (add_one-IsWithin (record { links = links; queue = added }) url within)

  relevant_url-IsWithin :
      (rules : Rules) (f : LinkFrontier) (url : String)
      → IsWithin n f.links
      → IsWithin n (relevant_url canonical_url format_url rules f url).links
  unfolding relevant_url refer_or_add found_link
  relevant_url-IsWithin rules f url within =
      let key = canonical_url (format_url url) in
      elim (Bool-cases (rules.in_domain url)) [
        | inr out ↦ rw out within
        | inl t ↦ elim (Option-cases (get key f.links)) [
          | inr (l, e) ↦
              rw (t, e)
                (IsWithin-kept n f.links within key (referred l) l e (referred-status l)
                  (referred-attempts l))
          | inl e ↦ elim (Bool-cases (rules.is_blacklisted (format_url url))) [
            | inl b ↦ rw (t, e, b) within
            | inr b ↦
                rw (t, e, b)
                  (IsWithin-new n f.links within key (found_link canonical_url format_url rules url)
                    (λ p. omega arith) e)
          ]
        ]
      ]

  relevant_urls-IsWithin :
      (rules : Rules) (urls : List String) (f : LinkFrontier)
      → IsWithin n f.links
      → IsWithin n (relevant_urls canonical_url format_url rules f urls).links
  unfolding relevant_urls
  relevant_urls-IsWithin rules [] f within = within
  relevant_urls-IsWithin rules (url ∷ urls) f within =
      relevant_urls-IsWithin rules urls _ (relevant_url-IsWithin rules f url within)

  Change-IsWithin :
      {f g : LinkFrontier}
      → Change canonical_url format_url f g
      → IsWithin n f.links
      → IsWithin n g.links
  unfolding add_front add_relevant_urls by_priority update_link mark_status at_key
  Change-IsWithin (adds f urls) within = add-IsWithin urls f within
  Change-IsWithin (adds_front f urls) within = add_front_loop-IsWithin urls f.links [] within
  Change-IsWithin (finds f rules urls) within = relevant_urls-IsWithin rules urls f within
  Change-IsWithin (updates f url change keeps) within =
      elim (Option-cases (get (canonical_url url) f.links)) [
        | inl e ↦ rw e within
        | inr (l, e) ↦ rw e (
            IsWithin-kept n f.links within (canonical_url url) (change l) l e (keeps l).0
              (keeps l).1)
      ]
  Change-IsWithin (marks f url status extra other keeps) within =
      elim (Option-cases (get (canonical_url url) f.links)) [
        | inl e ↦ rw e within
        | inr (l, e) ↦
            let marked = extra (record l { status = status }) in
            let retired : marked.status ≢ LinkStatus.pending = λ p. other (sym (keeps _).0 ∙ p) in
            let none_left = weight_retired marked retired in
            rw e (
              IsWithin-known n f.links within (canonical_url url) marked (λ p. absurd (retired p)) l
                e (omega (arith, none_left)))
      ]

module _ (canonical_url : String → String) where
  update_link-length :
      (f : LinkFrontier) (url : String) (change : Link → Link)
      → length (update_link canonical_url f url change).links ≡ length f.links
  unfolding update_link at_key
  update_link-length f url change = elim (Option-cases (get (canonical_url url) f.links)) [
    | inl e ↦ rw e refl
    | inr (l, e) ↦ rw e (length-put_known (canonical_url url) (change l) l f.links e)
  ]

  requeue-length :
      (f : LinkFrontier) (url : String) (change : Link → Link)
      → length (requeue canonical_url f url change).links ≡ length f.links
  unfolding requeue at_key
  requeue-length f url change = elim (Option-cases (get (canonical_url url) f.links)) [
    | inl e ↦ rw e refl
    | inr (l, e) ↦ rw e (length-put_known (canonical_url url) _ l f.links e)
  ]

  scrape_page-length :
      (f : LinkFrontier) (link : Link) (outcome : Outcome)
      → length (scrape_page canonical_url f link outcome).0.links ≡ length f.links
  unfolding scrape_page record_failure dequeue
  scrape_page-length f link (fetched folder_name final_url) =
      update_link-length (dequeue canonical_url f link.url) link.url
        (scraped_update folder_name (next_visit_order f))
  scrape_page-length f link (failed reason source) =
      elim (Bool-cases (should_retry reason (link.attempts + 1))) [
        | inl t ↦ rw t (
            requeue-length (dequeue canonical_url f link.url) link.url
              (retry_update reason source (link.attempts + 1)))
        | inr e ↦ rw e (
            update_link-length (dequeue canonical_url f link.url) link.url
              (error_update reason source (next_visit_order f) (link.attempts + 1)))
      ]

module _ (canonical_url format_url : String → String) where
  Crawl-IsWithin :
      {n : ℕ} {f : LinkFrontier} → Crawl canonical_url format_url n f → IsWithin n f.links
  unfolding from_urls get scrapes_left
  Crawl-IsWithin (starts urls) =
      add-IsWithin canonical_url format_url 0 urls (record { links = []; queue = [] })
        (λ key l e p. absurd (cc), omega arith)
  Crawl-IsWithin (changes {n} crawl change) =
      Change-IsWithin canonical_url format_url n change (Crawl-IsWithin crawl)
  Crawl-IsWithin (scrapes {n} {f} crawl link outcome held pending) =
      let (left, bound) = Crawl-IsWithin crawl in
      let (left_now, less) = scrape_page-UsesUp canonical_url f link outcome held pending left in
      let size = scrape_page-length canonical_url f link outcome in
      (left_now, omega (arith, bound, less, size))

  -- Whatever links a crawl adds or finds between its scrapes of pending links, whatever it updates
  -- other than status and attempts or marks other than pending, and however the scrapes end, it has
  -- given at most `max_scrape_attempts` of them for each link that it knows, less those that its
  -- pending links still have; and every pending link still has one.
  pub Crawl-IsBounded :
      {n : ℕ} {f : LinkFrontier}
      → Crawl canonical_url format_url n f
      → (n + scrapes_left f.links ≤ max_scrape_attempts * length f.links) × HasAttemptsLeft f.links
  Crawl-IsBounded crawl = let (left, bound) = Crawl-IsWithin crawl in (bound, left)
