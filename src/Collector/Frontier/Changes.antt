-- ===== src/Collector/Frontier/Changes.antt =====
-- The operations of `LinkFrontier` and the agreement of its queue with its links.
use civicpatch_tools.Prelude.{
  String, ◌≡◌, ◌≢◌, ◌↔◌, ◌⊎◌, inl, inr, refl, sym, ◌∙◌, Bool, none, List, [], ◌∷◌, ◌++◌, ◌==◌, Has,
  Has-append, Distinct-keep, Distinct-middle, Bool-cases, Option-cases, keep, string_eq, eq_of_eqb,
}
use mathlib.Core.List.{append-nil}
use civicpatch_tools.Prelude.Dict.{Dict, get}
use civicpatch_tools.Collector.Frontier.{
  Link, LinkStatus, LinkFrontier, status_eq, new_link, dropped, at_key, add_one, add, from_urls,
  add_front_loop, add_front, dequeue, requeue, update_link, mark_status,
}
use civicpatch_tools.Collector.Frontier.Sync.{
  InSync, IsPending, Has-dropped, InSync-retire, InSync-requeue, InSync-keep, InSync-new,
}

InSync-empty : InSync (record { links = []; queue = [] })
unfolding get
InSync-empty = record { once = tt; exact = λ k. (λ h. absurd h, λ (x, e, p). absurd (cc)) }

-- A key that has no link is not in the queue.
absent : (f : LinkFrontier) → InSync f → (key : String) → get key f.links ≡ none → ¬ Has key f.queue
absent f s key e h = let (x, g, p) = (s.exact key).0 h in cc

-- Dropping a key that has no link changes nothing that matters.
dropped-InSync :
    (f : LinkFrontier) (key : String)
    → get key f.links ≡ none
    → InSync f
    → InSync (record f { queue = dropped key f.queue })
dropped-InSync f key e s = record {
  once = Distinct-keep _ f.queue s.once;
  exact = λ k. (
    λ h. (s.exact k).0 ((Has-dropped k key f.queue).0 h).0,
    λ p.
        (Has-dropped k key f.queue).1
          ((s.exact k).1 p, λ q. absent f s key e (rw q at ((s.exact k).1 p))),
  );
}

keep_idem : {A : Type 0} (p : A → Bool) (xs : List A) → keep p (keep p xs) ≡ keep p xs
keep_idem p [] = refl
keep_idem p (x ∷ xs) = elim (Bool-cases (p x)) [
  | inl t ↦ rw t (rw (t, keep_idem p xs))
  | inr f ↦ rw f (keep_idem p xs)
]

module _ (canonical_url format_url : String → String) where
  add_one-InSync :
      (before after : List String) (links : Dict String Link) (url : String)
      → InSync (record { links = links; queue = before ++ after })
      → let next =
          add_one canonical_url format_url
            (record { links = links; queue = before })
            url
            (get (canonical_url url) links) in
        InSync (record { links = next.links; queue = next.queue ++ after })
  unfolding add_one
  add_one-InSync before after links url s =
      let key = canonical_url url in
      elim (Option-cases (get key links)) [
        | inr (old, e) ↦ rw e s
        | inl e ↦ rw e (
            InSync-new (record { links = links; queue = before ++ after }) s key
              (new_link (format_url url)) ((before ++ key ∷ []) ++ after)
              (Distinct-middle before after key s.once (absent _ s key e)) (λ k. joined k) refl)
      ]
    where
      joined :
          (k : String)
          → Has k ((before ++ canonical_url url ∷ []) ++ after)
            ↔ ((k ≡ canonical_url url) ⊎ Has k (before ++ after))
      joined k = (
        λ h. elim ((Has-append k (before ++ canonical_url url ∷ []) after).0 h) [
          | inl m ↦ elim ((Has-append k before (canonical_url url ∷ [])).0 m) [
            | inl j ↦ inr ((Has-append k before after).1 (inl j))
            | inr j ↦ elim j [ inl e ↦ inl e | inr z ↦ absurd z ]
          ]
          | inr m ↦ inr ((Has-append k before after).1 (inr m))
        ],
        λ h. (Has-append k (before ++ canonical_url url ∷ []) after).1 (elim h [
          | inl e ↦ inl ((Has-append k before (canonical_url url ∷ [])).1 (inr (inl e)))
          | inr m ↦ elim ((Has-append k before after).0 m) [
            | inl j ↦ inl ((Has-append k before (canonical_url url ∷ [])).1 (inl j))
            | inr j ↦ inr j
          ]
        ]),
      )

  -- Adding addresses keeps the queue exactly the pending links, each once.
  pub add-InSync :
      (f : LinkFrontier) (urls : List String)
      → InSync f
      → InSync (add canonical_url format_url f urls)
  unfolding add
  add-InSync f [] s = s
  add-InSync f (url ∷ urls) s =
      let start : InSync (record { links = f.links; queue = f.queue ++ [] }) = rw append-nil s in
      add-InSync (add_one canonical_url format_url f url (get (canonical_url url) f.links)) urls
        (rw append-nil at (add_one-InSync f.queue [] f.links url start))

  -- A frontier made from addresses, repeated or not, has exactly the pending links in its queue,
  -- each once.
  pub from_urls-InSync : (urls : List String) → InSync (from_urls canonical_url format_url urls)
  unfolding from_urls
  from_urls-InSync urls = add-InSync (record { links = []; queue = [] }) urls InSync-empty

  add_front_loop-InSync :
      (urls : List String) (links : Dict String Link) (added after : List String)
      → InSync (record { links = links; queue = added ++ after })
      → let seen = add_front_loop canonical_url format_url links added urls in
        InSync (record { links = seen.links; queue = seen.queue ++ after })
  unfolding add_front_loop
  add_front_loop-InSync [] links added after s = s
  add_front_loop-InSync (url ∷ urls) links added after s =
      add_front_loop-InSync urls _ _ after (add_one-InSync added after links url s)

  -- Adding addresses at the head keeps the queue exactly the pending links, each once.
  pub add_front-InSync :
      (f : LinkFrontier) (urls : List String)
      → InSync f
      → InSync (add_front canonical_url format_url f urls)
  unfolding add_front
  add_front-InSync f urls s = add_front_loop-InSync urls f.links [] f.queue s

-- An update that leaves the status alone.
abbrev pub KeepsStatus : (Link → Link) → Type 0
KeepsStatus updates = (l : Link) → (updates l).status ≡ l.status

module _ (canonical_url : String → String) where
  -- Sending a link back to the tail, with updates that leave its status alone, keeps the queue
  -- exactly the pending links.
  pub requeue-InSync :
      (f : LinkFrontier) (url : String) (updates : Link → Link)
      → KeepsStatus updates
      → InSync f
      → InSync (requeue canonical_url f url updates)
  unfolding requeue at_key
  requeue-InSync f url updates keeps s = elim (Option-cases (get (canonical_url url) f.links)) [
    | inl e ↦ rw e s
    | inr (l, e) ↦ rw e (InSync-requeue f s (canonical_url url) _ (keeps _))
  ]

  pub update_link-InSync :
      (f : LinkFrontier) (url : String) (updates : Link → Link)
      → KeepsStatus updates
      → InSync f
      → InSync (update_link canonical_url f url updates)
  unfolding update_link at_key
  update_link-InSync f url updates keeps s = elim (Option-cases (get (canonical_url url) f.links)) [
    | inl e ↦ rw e s
    | inr (l, e) ↦ rw e (InSync-keep f s (canonical_url url) (updates l) e (keeps l))
  ]

  -- Marking a link with a status other than pending, with updates that leave the status alone,
  -- keeps the queue exactly the pending links.
  pub mark_status-InSync :
      (f : LinkFrontier) (url : String) (status : LinkStatus) (extra : Link → Link)
      → status ≢ LinkStatus.pending
      → KeepsStatus extra
      → InSync f
      → InSync (mark_status canonical_url f url status extra)
  unfolding mark_status at_key
  mark_status-InSync f url status extra other keeps s =
      elim (Option-cases (get (canonical_url url) f.links)) [
        | inl e ↦ rw e s
        | inr (l, e) ↦ elim (Bool-cases (status == LinkStatus.pending)) [
          | inl t ↦ absurd (other (eq_of_eqb status LinkStatus.pending t))
          | inr no_queue ↦
              rw (e, no_queue)
                (InSync-retire f s (canonical_url url) _ (λ p. other (sym (keeps _) ∙ p)))
        ]
      ]

  -- `dequeue`, and then an update of the same link to a status that is not pending: a scrape.
  pub dequeue-update-InSync :
      (f : LinkFrontier) (url : String) (updates : Link → Link)
      → ((l : Link) → (updates l).status ≢ LinkStatus.pending)
      → InSync f
      → InSync (update_link canonical_url (dequeue canonical_url f url) url updates)
  unfolding update_link dequeue at_key
  dequeue-update-InSync f url updates other s =
      elim (Option-cases (get (canonical_url url) f.links)) [
        | inl e ↦ rw e (dropped-InSync f (canonical_url url) e s)
        | inr (l, e) ↦ rw e (InSync-retire f s (canonical_url url) (updates l) (other l))
      ]

  -- `dequeue`, and then the same link queued again: a scrape that is to be retried.
  pub dequeue-requeue-InSync :
      (f : LinkFrontier) (url : String) (updates : Link → Link)
      → KeepsStatus updates
      → InSync f
      → InSync (requeue canonical_url (dequeue canonical_url f url) url updates)
  unfolding requeue dequeue at_key
  dequeue-requeue-InSync f url updates keeps s =
      elim (Option-cases (get (canonical_url url) f.links)) [
        | inl e ↦ rw e (dropped-InSync f (canonical_url url) e s)
        | inr (l, e) ↦
            rw (e, keep_idem _ f.queue) (InSync-requeue f s (canonical_url url) _ (keeps _))
      ]

  -- Taking a pending link off the queue and doing no more leaves the queue short of it.
  pub dequeue-not_InSync :
      (f : LinkFrontier) (url : String)
      → InSync f
      → IsPending f.links (canonical_url url)
      → ¬ InSync (dequeue canonical_url f url)
  unfolding dequeue
  dequeue-not_InSync f url s p broken =
      ((Has-dropped (canonical_url url) (canonical_url url) f.queue).0
          ((broken.exact (canonical_url url)).1 p)).1
        refl
