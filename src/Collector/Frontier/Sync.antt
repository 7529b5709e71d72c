-- ===== src/Collector/Frontier/Sync.antt =====
-- The agreement of a frontier's queue with its links, `InSync`, and how each kind of change bears
-- on it.
use civicpatch_tools.Prelude.{
  String, ◌≡◌, ◌≢◌, ◌↔◌, ◌⊎◌, inl, inr, refl, sym, ap, ◌∙◌, not, some, List, [], ◌∷◌, ◌++◌, ◌==◌,
  arith, Has, Has-append, Has-keep, Distinct, Distinct-keep, Distinct-snoc, Bool-cases, eq_of_eqb,
  ne_of_eqb, string_eq,
}
use civicpatch_tools.Prelude.Dict.{Dict, get, put, get-put_self, get-put_ne}
use civicpatch_tools.Collector.Frontier.{Link, LinkStatus, LinkFrontier, dropped}

abbrev pub IsPending : Dict String Link → String → Type 0
IsPending links key = (l : Link) × (get key links ≡ some l) × (l.status ≡ LinkStatus.pending)

pub record InSync (f : LinkFrontier) : Type 0 where
  pub once : Distinct f.queue
  pub exact : (key : String) → Has key f.queue ↔ IsPending f.links key

string-cases : (a b : String) → (a ≡ b) ⊎ (a ≢ b)
string-cases a b = elim (Bool-cases (a == b)) [
  | inl t ↦ inl (eq_of_eqb a b t)
  | inr f ↦ inr (ne_of_eqb a b f)
]

pub Has-dropped :
    (k key : String) (queue : List String) → Has k (dropped key queue) ↔ (Has k queue × (k ≢ key))
Has-dropped k key queue = (
  λ h.
      let (m, t) = (Has-keep (λ k. not (k == key)) k queue).0 h in
      (m, ne_of_eqb k key (ground arith)),
  λ (m, n).
      (Has-keep (λ k. not (k == key)) k queue).1
        (m, elim (Bool-cases (k == key)) [ inl t ↦ absurd (n (eq_of_eqb k key t)) | inr f ↦ rw f ]),
)

module _ (f : LinkFrontier) (sync : InSync f) (key : String) (l : Link) where
  pending_self : IsPending (put key l f.links) key → l.status ≡ LinkStatus.pending
  pending_self (x, e, p) =
      let same : some l ≡ some x = rw get-put_self at e in let q : l ≡ x = cc in rw q p

  IsPending-other : (k : String) → k ≢ key → IsPending (put key l f.links) k ↔ IsPending f.links k
  IsPending-other k n = (
    λ (x, e, p). (x, rw (get-put_ne key k l f.links (λ q. n (sym q))) at e, p),
    λ (x, e, p). (x, rw (get-put_ne key k l f.links (λ q. n (sym q))) e, p),
  )

  -- The link leaves the queue together with its pending status.
  pub InSync-retire :
      l.status ≢ LinkStatus.pending
      → InSync (record { links = put key l f.links; queue = dropped key f.queue })
  InSync-retire other = record {
    once = Distinct-keep _ f.queue sync.once;
    exact = λ k. elim (string-cases k key) [
      | inl e ↦ (
        λ h. absurd (((Has-dropped k key f.queue).0 h).1 e),
        λ p. absurd (other (pending_self (rw e at p))),
      )
      | inr n ↦ (
        λ h. (IsPending-other k n).1 ((sync.exact k).0 ((Has-dropped k key f.queue).0 h).0),
        λ p. (Has-dropped k key f.queue).1 ((sync.exact k).1 ((IsPending-other k n).0 p), n),
      )
    ];
  }

  -- The link goes to the tail of the queue, pending.
  pub InSync-requeue :
      l.status ≡ LinkStatus.pending
      → InSync (record { links = put key l f.links; queue = dropped key f.queue ++ key ∷ [] })
  InSync-requeue is_pending = record {
    once =
        Distinct-snoc (dropped key f.queue) key (Distinct-keep _ f.queue sync.once)
          (λ m. ((Has-dropped key key f.queue).0 m).1 refl);
    exact = λ k. elim (string-cases k key) [
      | inl e ↦ (
        λ h. (l, rw (e, get-put_self) refl, is_pending),
        λ p. (Has-append k (dropped key f.queue) (key ∷ [])).1 (inr (inl e)),
      )
      | inr n ↦ (
        λ h. elim ((Has-append k (dropped key f.queue) (key ∷ [])).0 h) [
          | inl m ↦ (IsPending-other k n).1 ((sync.exact k).0 ((Has-dropped k key f.queue).0 m).0)
          | inr m ↦ elim m [ inl e ↦ absurd (n e) | inr z ↦ absurd z ]
        ],
        λ p.
            (Has-append k (dropped key f.queue) (key ∷ [])).1 (
              inl
                ((Has-dropped k key f.queue).1 ((sync.exact k).1 ((IsPending-other k n).0 p), n))),
      )
    ];
  }

  -- A link that changes and keeps its status leaves the queue right.
  pub InSync-keep :
      {old : Link}
      → get key f.links ≡ some old
      → l.status ≡ old.status
      → InSync (record { links = put key l f.links; queue = f.queue })
  InSync-keep {old} e same = record {
    once = sync.once;
    exact = λ k. elim (string-cases k key) [
      | inl q ↦ (
        λ h.
            let (x, g, p) = (sync.exact k).0 h in
            let known : some x ≡ some old = sym g ∙ ap (λ j. get j f.links) q ∙ e in
            let eq : x ≡ old = cc in (l, rw (q, get-put_self) refl, same ∙ rw (← eq) p),
        λ p.
            (sync.exact k).1
              (old, ap (λ j. get j f.links) q ∙ e, sym same ∙ pending_self (rw q at p)),
      )
      | inr n ↦ (
        λ h. (IsPending-other k n).1 ((sync.exact k).0 h),
        λ p. (sync.exact k).1 ((IsPending-other k n).0 p),
      )
    ];
  }

  -- A new link, pending, whose key joins the queue somewhere.
  pub InSync-new :
      (queue : List String)
      → Distinct queue
      → ((k : String) → Has k queue ↔ ((k ≡ key) ⊎ Has k f.queue))
      → l.status ≡ LinkStatus.pending
      → InSync (record { links = put key l f.links; queue = queue })
  InSync-new queue once joined is_pending = record {
    once = once;
    exact = λ k. elim (string-cases k key) [
      | inl e ↦ (λ h. (l, rw (e, get-put_self) refl, is_pending), λ p. (joined k).1 (inl e))
      | inr n ↦ (
        λ h. elim ((joined k).0 h) [
          | inl e ↦ absurd (n e)
          | inr m ↦ (IsPending-other k n).1 ((sync.exact k).0 m)
        ],
        λ p. (joined k).1 (inr ((sync.exact k).1 ((IsPending-other k n).0 p))),
      )
    ];
  }
