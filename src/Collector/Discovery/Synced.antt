-- ===== src/Collector/Discovery/Synced.antt =====
-- A page's links join the frontier and its queue together.
use civicpatch_tools.Prelude.{
  String, ◌≡◌, ◌↔◌, ◌⊎◌, inl, inr, refl, List, [], ◌∷◌, ◌++◌, ◌==◌, Has, Has-append, Distinct-snoc,
  Bool-cases, Option-cases, string_eq,
}
use civicpatch_tools.Prelude.Dict.{get}
use civicpatch_tools.Prelude.Sort.{Has-sorted, Distinct-sorted}
use civicpatch_tools.Collector.Frontier.{Link, LinkStatus, LinkFrontier, status_eq}
use civicpatch_tools.Collector.Frontier.Sync.{InSync, InSync-keep, InSync-new}
use civicpatch_tools.Collector.Discovery.{
  Rules, referred, found_link, refer_or_add, relevant_url, relevant_urls, by_priority,
  add_relevant_urls,
}

pub referred-status : (l : Link) → (referred l).status ≡ l.status
unfolding referred
referred-status l = elim (Bool-cases (l.status == LinkStatus.pending)) [
  | inl t ↦ rw t refl
  | inr f ↦ rw f refl
]

pub referred-attempts : (l : Link) → (referred l).attempts ≡ l.attempts
unfolding referred
referred-attempts l = elim (Bool-cases (l.status == LinkStatus.pending)) [
  | inl t ↦ rw t refl
  | inr f ↦ rw f refl
]

Has-snoc :
    (k key : String) (queue : List String) → Has k (queue ++ key ∷ []) ↔ ((k ≡ key) ⊎ Has k queue)
Has-snoc k key queue = (
  λ h. elim ((Has-append k queue (key ∷ [])).0 h) [
    | inl m ↦ inr m
    | inr n ↦ elim n [ inl q ↦ inl q | inr w ↦ absurd w ]
  ],
  λ h. (Has-append k queue (key ∷ [])).1 (elim h [ inl q ↦ inr (inl q) | inr m ↦ inl m ]),
)

module _ (canonical_url format_url : String → String) (rules : Rules) where
  relevant_url-InSync :
      (f : LinkFrontier) (url : String)
      → InSync f
      → InSync (relevant_url canonical_url format_url rules f url)
  unfolding relevant_url refer_or_add found_link
  relevant_url-InSync f url s =
      let key = canonical_url (format_url url) in
      elim (Bool-cases (rules.in_domain url)) [
        | inr out ↦ rw out s
        | inl t ↦ elim (Option-cases (get key f.links)) [
          | inr (l, e) ↦ rw (t, e) (InSync-keep f s key (referred l) e (referred-status l))
          | inl e ↦ elim (Bool-cases (rules.is_blacklisted (format_url url))) [
            | inl b ↦ rw (t, e, b) s
            | inr b ↦
                rw (t, e, b)
                  (InSync-new f s key (found_link canonical_url format_url rules url)
                    (f.queue ++ key ∷ [])
                    (Distinct-snoc f.queue key s.once
                      (λ m. let (x, g, p) = (s.exact key).0 m in cc))
                    (λ k. Has-snoc k key f.queue) refl)
          ]
        ]
      ]

  relevant_urls-InSync :
      (f : LinkFrontier) (urls : List String)
      → InSync f
      → InSync (relevant_urls canonical_url format_url rules f urls)
  unfolding relevant_urls
  relevant_urls-InSync f [] s = s
  relevant_urls-InSync f (url ∷ urls) s =
      relevant_urls-InSync (relevant_url canonical_url format_url rules f url) urls
        (relevant_url-InSync f url s)

  by_priority-InSync :
      (f : LinkFrontier) → InSync f → InSync (by_priority canonical_url format_url rules f)
  unfolding by_priority
  by_priority-InSync f s = record {
    once = Distinct-sorted _ f.queue s.once;
    exact = λ k. (
      λ h. (s.exact k).0 ((Has-sorted _ k f.queue).0 h),
      λ p. (Has-sorted _ k f.queue).1 ((s.exact k).1 p),
    );
  }

  pub add_relevant_urls-InSync :
      (f : LinkFrontier) (urls : List String)
      → InSync f
      → InSync (add_relevant_urls canonical_url format_url rules f urls)
  unfolding add_relevant_urls
  add_relevant_urls-InSync f urls s = by_priority-InSync _ (relevant_urls-InSync f urls s)
