-- ===== src/Collector/Discovery/Found.antt =====
-- Which links `add_relevant_urls` adds, and what it leaves of the others.
use civicpatch_tools.Prelude.{
  ℕ, ◌+◌, ◌≤◌, String, ◌≡◌, ◌≢◌, ◌↔◌, ◌⊎◌, inl, inr, refl, sym, ◌∙◌, true, false, Option, some,
  List, [], ◌∷◌, ◌==◌, Has, Has-map, arith, Bool-cases, Option-cases, string_eq, eq_of_eqb,
}
use civicpatch_tools.Prelude.Dict.{Dict, get, keys, Has-keys-put, Has-keys_of_get, get-put}
use civicpatch_tools.Collector.Frontier.{Link, LinkStatus, LinkFrontier, status_eq}
use civicpatch_tools.Collector.Discovery.{
  Rules, referred, found_link, refer_or_add, relevant_url, relevant_urls, by_priority,
  add_relevant_urls,
}

has_key :
    (key : String) (l : Link) (links : Dict String Link)
    → get key links ≡ some l
    → Has key (keys links)
has_key key l links e =
    (Has-map (λ (x : String × Link). x.0) links).1 ((key, l), Has-keys_of_get key l links e, refl)

-- A link that was known, with more references if it is pending.
abbrev pub IsKept : Link → Option Link → Type 0
IsKept l now =
    (n : ℕ) × (now ≡ some (record l { num_references = n }))
    × (l.num_references ≤ n)
    × (l.status ≢ LinkStatus.pending → n ≡ l.num_references)

referred-IsKept : (l : Link) → IsKept l (some (referred l))
unfolding referred
referred-IsKept l = elim (Bool-cases (l.status == LinkStatus.pending)) [
  | inl t ↦ (
    l.num_references + 1,
    rw t refl,
    omega arith,
    λ n. absurd (n (eq_of_eqb l.status LinkStatus.pending t)),
  )
  | inr f ↦ (l.num_references, rw f refl, omega arith, λ n. refl)
]

module _ (canonical_url format_url : String → String) (rules : Rules) where
  -- The key of an address that is in the domain and not blacklisted.
  abbrev pub IsKeyOf : String → String → Type 0
  IsKeyOf key url =
      (rules.in_domain url ≡ true)
      × (rules.is_blacklisted (format_url url) ≡ false)
      × (key ≡ canonical_url (format_url url))

  abbrev pub IsFound : List String → String → Type 0
  IsFound urls key = (url : String) × Has url urls × IsKeyOf key url

  keys-relevant_url :
      (f : LinkFrontier) (url key : String)
      → Has key (keys (relevant_url canonical_url format_url rules f url).links)
        ↔ (IsKeyOf key url ⊎ Has key (keys f.links))
  unfolding relevant_url refer_or_add
  keys-relevant_url f url key =
      let own = canonical_url (format_url url) in
      elim (Bool-cases (rules.in_domain url)) [
        | inr out ↦ rw out (inr, λ h. elim h [ inl (t, b, q) ↦ absurd (cc) | inr m ↦ m ])
        | inl t ↦ elim (Option-cases (get own f.links)) [
          | inr (l, e) ↦
              rw (t, e)
                (
                  λ h. elim ((Has-keys-put own key (referred l) f.links).0 h) [
                    | inl q ↦ inr (rw q (has_key own l f.links e))
                    | inr m ↦ inr m
                  ],
                  λ h.
                      (Has-keys-put own key (referred l) f.links).1
                        (elim h [ inl (t, b, q) ↦ inl q | inr m ↦ inr m ]),
                )
          | inl e ↦ elim (Bool-cases (rules.is_blacklisted (format_url url))) [
            | inl b ↦ rw (t, e, b) (inr, λ h. elim h [ inl (u, c, q) ↦ absurd (cc) | inr m ↦ m ])
            | inr b ↦
                rw (t, e, b)
                  (
                    λ h. elim ((Has-keys-put own key _ f.links).0 h) [
                      | inl q ↦ inl (refl, refl, q)
                      | inr m ↦ inr m
                    ],
                    λ h.
                        (Has-keys-put own key _ f.links).1
                          (elim h [ inl (t, b, q) ↦ inl q | inr m ↦ inr m ]),
                  )
          ]
        ]
      ]

  keys-relevant_urls :
      (urls : List String) (f : LinkFrontier) (key : String)
      → Has key (keys (relevant_urls canonical_url format_url rules f urls).links)
        ↔ (IsFound urls key ⊎ Has key (keys f.links))
  unfolding relevant_urls
  keys-relevant_urls [] f key = (inr, λ h. elim h [ inl (u, m, k) ↦ absurd m | inr m ↦ m ])
  keys-relevant_urls (url ∷ urls) f key =
      let step = keys-relevant_url f url key in
      let ih = keys-relevant_urls urls (relevant_url canonical_url format_url rules f url) key in
      (
        λ h. elim (ih.0 h) [
          | inl (u, m, k) ↦ inl (u, inr m, k)
          | inr m ↦ elim (step.0 m) [ inl k ↦ inl (url, inl refl, k) | inr n ↦ inr n ]
        ],
        λ h. ih.1 (elim h [
          | inl (u, m, k) ↦ elim m [
            | inl q ↦ inr (step.1 (inl (rw (sym q) k)))
            | inr n ↦ inl (u, n, k)
          ]
          | inr n ↦ inr (step.1 (inr n))
        ]),
      )

  relevant_url-IsKept :
      (f : LinkFrontier) (url key : String) (l : Link)
      → get key f.links ≡ some l
      → IsKept l (get key (relevant_url canonical_url format_url rules f url).links)
  unfolding relevant_url refer_or_add
  relevant_url-IsKept f url key l h =
      let own = canonical_url (format_url url) in
      elim (Bool-cases (rules.in_domain url)) [
        | inr out ↦ rw out (l.num_references, h, omega arith, λ n. refl)
        | inl t ↦ elim (Option-cases (get own f.links)) [
          | inr (k, e) ↦
              rw (t, e, get-put own key (referred k) f.links)
                (elim (Bool-cases (own == key)) [
                  | inr d ↦ rw d (l.num_references, h, omega arith, λ n. refl)
                  | inl q ↦
                      let at : own ≡ key = eq_of_eqb own key q in
                      let same : k ≡ l = cc in rw (q, same) (referred-IsKept l)
                ])
          | inl e ↦ elim (Bool-cases (rules.is_blacklisted (format_url url))) [
            | inl b ↦ rw (t, e, b) (l.num_references, h, omega arith, λ n. refl)
            | inr b ↦
                rw
                  (t, e, b, get-put own key (found_link canonical_url format_url rules url) f.links)
                  (elim (Bool-cases (own == key)) [
                    | inr d ↦ rw d (l.num_references, h, omega arith, λ n. refl)
                    | inl q ↦ let at : own ≡ key = eq_of_eqb own key q in absurd (cc)
                  ])
          ]
        ]
      ]

  relevant_urls-IsKept :
      (urls : List String) (f : LinkFrontier) (key : String) (l : Link)
      → get key f.links ≡ some l
      → IsKept l (get key (relevant_urls canonical_url format_url rules f urls).links)
  unfolding relevant_urls
  relevant_urls-IsKept [] f key l h = (l.num_references, h, omega arith, λ n. refl)
  relevant_urls-IsKept (url ∷ urls) f key l h =
      let (n, e, le, same) = relevant_url-IsKept f url key l h in
      let (m, d, more, still) =
        relevant_urls-IsKept urls (relevant_url canonical_url format_url rules f url) key
          (record l { num_references = n }) e in
      (m, d, omega (arith, le, more), λ p. still p ∙ same p)

  -- The links are those known before and those of the addresses given that are in the domain and not
  -- blacklisted. A link known before is left as it was, unless it is pending: then it may have more
  -- references.
  pub add_relevant_urls_lem :
      (f : LinkFrontier) (urls : List String) (key : String)
      → (Has key (keys (add_relevant_urls canonical_url format_url rules f urls).links)
          ↔ (IsFound urls key ⊎ Has key (keys f.links)))
        × ((l : Link)
            → get key f.links ≡ some l
            → IsKept l (get key (add_relevant_urls canonical_url format_url rules f urls).links))
  unfolding add_relevant_urls by_priority
  add_relevant_urls_lem f urls key =
      (keys-relevant_urls urls f key, λ l. relevant_urls-IsKept urls f key l)
