-- ===== src/Collector/Crawl/Budget.antt =====
-- How many scrapes the links of a frontier allow: two of each, less what was given.
use civicpatch_tools.Prelude.{
  ℕ, suc, ◌+◌, ◌*◌, ◌≤◌, ◌<◌, String, ◌≡◌, inl, inr, refl, some, none, [], ◌∷◌, ◌==◌, length, arith,
  Bool-cases, string_eq,
}
use civicpatch_tools.Prelude.Dict.{Dict, get, put}
use civicpatch_tools.Collector.Frontier.{Link, LinkStatus, status_eq}
use civicpatch_tools.Collector.Scrape.{max_scrape_attempts}
use civicpatch_tools.Collector.Scrape.Retry.{
  weight, scrapes_left, scrapes_left-put, HasAttemptsLeft, HasAttemptsLeft-put,
}

pub length-put_known :
    (key : String) (l old : Link) (links : Dict String Link)
    → get key links ≡ some old
    → length (put key l links) ≡ length links
unfolding get put
length-put_known key l old [] e = absurd (cc)
length-put_known key l old ((k, x) ∷ links) e = elim (Bool-cases (k == key)) [
  | inl t ↦ rw t refl
  | inr f ↦ let ih = length-put_known key l old links (rw f at e) in rw f (omega (arith, ih))
]

length-put_new :
    (key : String) (l : Link) (links : Dict String Link)
    → get key links ≡ none
    → length (put key l links) ≡ suc (length links)
unfolding get put
length-put_new key l [] e = refl
length-put_new key l ((k, x) ∷ links) e = elim (Bool-cases (k == key)) [
  | inl t ↦ absurd (cc (rw t at e))
  | inr f ↦ let ih = length-put_new key l links (rw f at e) in rw f (omega (arith, ih))
]

scrapes_left-put_new :
    (key : String) (l : Link) (links : Dict String Link)
    → get key links ≡ none
    → scrapes_left (put key l links) ≡ scrapes_left links + weight l
unfolding get put scrapes_left
scrapes_left-put_new key l [] e = omega arith
scrapes_left-put_new key l ((k, x) ∷ links) e = elim (Bool-cases (k == key)) [
  | inl t ↦ absurd (cc (rw t at e))
  | inr f ↦ let ih = scrapes_left-put_new key l links (rw f at e) in rw f (omega (arith, ih))
]

weight_most : (l : Link) → weight l ≤ max_scrape_attempts
unfolding weight
weight_most l = elim (Bool-cases (l.status == LinkStatus.pending)) [
  | inl t ↦ rw t (omega arith)
  | inr f ↦ rw f (omega arith)
]

pub weight_same :
    (l old : Link) → l.status ≡ old.status → l.attempts ≡ old.attempts → weight l ≡ weight old
unfolding weight
weight_same l old s a = rw (s, a)

-- Every pending link has an attempt left, and the scrapes given and those still to give are no more
-- than the links allow.
abbrev pub IsWithin : ℕ → Dict String Link → Type 0
IsWithin n links =
    HasAttemptsLeft links × (n + scrapes_left links ≤ max_scrape_attempts * length links)

module _ (n : ℕ) (links : Dict String Link) (within : IsWithin n links) (key : String) (l : Link)
    (fresh : l.status ≡ LinkStatus.pending → l.attempts < max_scrape_attempts) where
  pub IsWithin-known :
      (old : Link) → get key links ≡ some old → weight l ≤ weight old → IsWithin n (put key l links)
  IsWithin-known old e less =
      let size = length-put_known key l old links e in
      let sum = scrapes_left-put key old l links e in
      let bound = within.1 in
      (HasAttemptsLeft-put key l links fresh within.0, omega (arith, size, sum, less, bound))

  pub IsWithin-new : get key links ≡ none → IsWithin n (put key l links)
  IsWithin-new e =
      let size = length-put_new key l links e in
      let sum = scrapes_left-put_new key l links e in
      let most = weight_most l in
      let bound = within.1 in
      (HasAttemptsLeft-put key l links fresh within.0, omega (arith, size, sum, most, bound))
