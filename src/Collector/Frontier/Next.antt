-- ===== src/Collector/Frontier/Next.antt =====
-- What `next_pending` offers a crawl.
use civicpatch_tools.Prelude.{
  String, ◌≡◌, ◌⊎◌, inl, inr, refl, some, none, List, [], ◌∷◌, string_eq,
}
use civicpatch_tools.Prelude.Dict.{Dict}
use civicpatch_tools.Collector.Frontier.{Link, LinkStatus, LinkFrontier, head_link, next_pending}
use civicpatch_tools.Collector.Frontier.Sync.{InSync, IsPending}

abbrev pub Offers : LinkFrontier → Type 0
Offers f =
    ((l : Link) × (next_pending f ≡ some l) × (l.status ≡ LinkStatus.pending))
    ⊎ ((next_pending f ≡ none) × ((key : String) → ¬ IsPending f.links key))

Offers-of :
    (links : Dict String Link) (queue : List String)
    → InSync (record { links = links; queue = queue })
    → Offers (record { links = links; queue = queue })
unfolding next_pending head_link
Offers-of links [] s = inr (refl, λ key p. (s.exact key).1 p)
Offers-of links (key ∷ queue) s = let (l, e, p) = (s.exact key).0 (inl refl) in inl (l, e, p)

-- With the queue in step, `next_pending` offers a pending link, and offers none only when no link
-- is pending.
pub next_pending_lem : (f : LinkFrontier) → InSync f → Offers f
next_pending_lem f s = Offers-of f.links f.queue s
