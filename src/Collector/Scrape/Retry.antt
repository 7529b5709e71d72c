-- ===== src/Collector/Scrape/Retry.antt =====
-- A scrape, the queue, and the attempts that a link has left.
use civicpatch_tools.Prelude.{
  ℕ, ◌+◌, ◌-◌, ◌<◌, String, ◌≡◌, ◌≢◌, inl, inr, refl, true, Option, some, [], ◌∷◌, ◌==◌, arith,
  Bool-cases, if◌then◌else◌, string_eq, eq_of_eqb,
}
use civicpatch_tools.Prelude.Dict.{Dict, get, put, get-put}
use civicpatch_tools.Collector.Frontier.{
  Link, LinkStatus, LinkFrontier, NavigationFailureReason, status_eq, status_eqb, dequeue, requeue,
  update_link, at_key,
}
use civicpatch_tools.Collector.Frontier.Sync.{InSync}
use civicpatch_tools.Collector.Frontier.Changes.{dequeue-update-InSync, dequeue-requeue-InSync}
use civicpatch_tools.Collector.Scrape.{
  max_scrape_attempts, should_retry, Outcome, fetched, failed, next_visit_order, scraped_update,
  retry_update, error_update, record_failure, scrape_page,
}

module _ (canonical_url : String → String) where
  -- Whatever the browser did, a scrape of any link leaves the queue exactly the pending links.
  pub scrape_page-InSync :
      (f : LinkFrontier) (link : Link) (outcome : Outcome)
      → InSync f
      → InSync (scrape_page canonical_url f link outcome).0
  unfolding scrape_page record_failure
  scrape_page-InSync f link (fetched folder_name final_url) s =
      dequeue-update-InSync canonical_url f link.url
        (scraped_update folder_name (next_visit_order f)) (λ l p. cc) s
  scrape_page-InSync f link (failed reason source) s =
      elim (Bool-cases (should_retry reason (link.attempts + 1))) [
        | inl t ↦ rw t (
            dequeue-requeue-InSync canonical_url f link.url
              (retry_update reason source (link.attempts + 1)) (λ l. refl) s)
        | inr e ↦ rw e (
            dequeue-update-InSync canonical_url f link.url
              (error_update reason source (next_visit_order f) (link.attempts + 1)) (λ l p. cc) s)
      ]

-- The scrapes that a frontier still has to give: each pending link has what is left of two.
unfoldable pub weight : Link → ℕ
unfolding status_eqb
weight l = if l.status == LinkStatus.pending then max_scrape_attempts - l.attempts else 0

unfoldable pub scrapes_left : Dict String Link → ℕ
unfolding weight
scrapes_left [] = 0
scrapes_left ((k, l) ∷ links) = weight l + scrapes_left links

pub scrapes_left-put :
    (key : String) (old l : Link) (links : Dict String Link)
    → get key links ≡ some old
    → scrapes_left (put key l links) + weight old ≡ scrapes_left links + weight l
unfolding scrapes_left get put
scrapes_left-put key old l [] e = absurd (cc)
scrapes_left-put key old l ((k, x) ∷ links) e = elim (Bool-cases (k == key)) [
  | inl t ↦
      let same : some x ≡ some old = rw t at e in let q : x ≡ old = cc in rw (t, q) (omega arith)
  | inr f ↦ let ih = scrapes_left-put key old l links (rw f at e) in rw f (omega (arith, ih))
]

weight_fresh :
    (l : Link) → l.status ≡ LinkStatus.pending → weight l ≡ max_scrape_attempts - l.attempts
unfolding weight
weight_fresh l p = rw p refl

pub weight_retired : (l : Link) → l.status ≢ LinkStatus.pending → weight l ≡ 0
unfolding weight
weight_retired l n = elim (Bool-cases (l.status == LinkStatus.pending)) [
  | inl t ↦ absurd (n (eq_of_eqb l.status LinkStatus.pending t))
  | inr f ↦ rw f refl
]

-- Every pending link has an attempt left.
abbrev pub HasAttemptsLeft : Dict String Link → Type 0
HasAttemptsLeft links =
    (key : String) (l : Link)
    → get key links ≡ some l
    → l.status ≡ LinkStatus.pending
    → l.attempts < max_scrape_attempts

pub HasAttemptsLeft-put :
    (key : String) (l : Link) (links : Dict String Link)
    → (l.status ≡ LinkStatus.pending → l.attempts < max_scrape_attempts)
    → HasAttemptsLeft links
    → HasAttemptsLeft (put key l links)
HasAttemptsLeft-put key l links fresh left k x e p = elim (Bool-cases (key == k)) [
  | inl t ↦
      let same : some l ≡ some x = rw (get-put key k l links, t) at e in
      let q : l ≡ x = cc in rw q at (fresh (rw (← q) at p))
  | inr f ↦ left k x (rw (get-put key k l links, f) at e) p
]

should_retry_bound :
    (reason : Option NavigationFailureReason) (attempts : ℕ)
    → should_retry reason attempts ≡ true
    → attempts < max_scrape_attempts
unfolding should_retry
should_retry_bound reason attempts e = ground (arith, e)

-- Replacing the link that a scrape was given, by one whose weight is less.
module _ (links : Dict String Link) (key : String) (link l : Link) where
  scrapes_left_less :
      get key links ≡ some link
      → weight l < weight link
      → scrapes_left (put key l links) < scrapes_left links
  scrapes_left_less e less = let h = scrapes_left-put key link l links e in omega (arith, h, less)

  UsesUp_of :
      get key links ≡ some link
      → HasAttemptsLeft links
      → (l.status ≡ LinkStatus.pending → l.attempts < max_scrape_attempts)
      → weight l < weight link
      → HasAttemptsLeft (put key l links) × scrapes_left (put key l links) < scrapes_left links
  UsesUp_of e left fresh less =
      (HasAttemptsLeft-put key l links fresh left, scrapes_left_less e less)

abbrev pub UsesUp : Dict String Link → Dict String Link → Type 0
UsesUp before after = HasAttemptsLeft after × scrapes_left after < scrapes_left before

retired_less :
    (link l : Link)
    → link.status ≡ LinkStatus.pending
    → link.attempts < max_scrape_attempts
    → l.status ≢ LinkStatus.pending
    → weight l < weight link
retired_less link l p b n =
    let u = weight_fresh link p in let v = weight_retired l n in omega (arith, u, v, b)

retry_less :
    (link l : Link)
    → link.status ≡ LinkStatus.pending
    → l.status ≡ LinkStatus.pending
    → l.attempts ≡ link.attempts + 1
    → l.attempts < max_scrape_attempts
    → weight l < weight link
retry_less link l p q same b =
    let u = weight_fresh link p in let v = weight_fresh l q in omega (arith, u, v, b, same)

module _ (canonical_url : String → String) where
  -- A scrape of a pending link that the frontier holds under its own address, while every pending
  -- link has an attempt left, leaves every pending link an attempt and leaves fewer scrapes to
  -- give, whatever the browser did.
  pub scrape_page-UsesUp :
      (f : LinkFrontier) (link : Link) (outcome : Outcome)
      → get (canonical_url link.url) f.links ≡ some link
      → link.status ≡ LinkStatus.pending
      → HasAttemptsLeft f.links
      → UsesUp f.links (scrape_page canonical_url f link outcome).0.links
  unfolding scrape_page record_failure update_link requeue dequeue at_key
  scrape_page-UsesUp f link (fetched folder_name final_url) e p left =
      let l = scraped_update folder_name (next_visit_order f) link in
      rw e (
        UsesUp_of f.links (canonical_url link.url) link l e left (λ q. absurd (cc))
          (retired_less link l p (left _ link e p) (λ q. cc)))
  scrape_page-UsesUp f link (failed reason source) e p left =
      elim (Bool-cases (should_retry reason (link.attempts + 1))) [
        | inl t ↦
            let l =
              retry_update reason source (link.attempts + 1)
                (record link { status = LinkStatus.pending }) in
            let bound = should_retry_bound reason (link.attempts + 1) t in
            rw (t, e)
              (UsesUp_of f.links (canonical_url link.url) link l e left (λ q. bound)
                (retry_less link l p refl refl bound))
        | inr n ↦
            let l = error_update reason source (next_visit_order f) (link.attempts + 1) link in
            rw (n, e)
              (UsesUp_of f.links (canonical_url link.url) link l e left (λ q. absurd (cc))
                (retired_less link l p (left _ link e p) (λ q. cc)))
      ]
