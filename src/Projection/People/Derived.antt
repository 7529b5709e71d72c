-- ===== src/Projection/People/Derived.antt =====
-- Deriving a person never fails, and what memberships the person has.
use civicpatch_tools.Prelude.{
  last, sym, mem, ℕ, eqb_of_eq, String, ◌≡◌, ◌⊎◌, inl, inr, refl, ap, true, Option, some, List, [],
  ◌∷◌, ◌++◌, ◌==◌, map, keep, Has, Has-keep, Option-cases, ◌>>=◌, eqb_refl, string_eq,
}
use mathlib.Core.Option
use civicpatch_tools.Prelude.Dict.{Dict, get}
use civicpatch_tools.Prelude.Each.{each-returns, map-each}
use civicpatch_tools.Prelude.Sort.{sorted, Has-sorted, last-Has}
use civicpatch_tools.Prelude.Stamp.{Stamp}
use civicpatch_tools.Projection.Facts.{ClaimKind, PostKey, post_eq, SourceRecord, Facts, kind_eq}
use civicpatch_tools.Projection.FieldValue.Claims.{claim_le-IsOrder}
use civicpatch_tools.Projection.Memberships.{membership_state, post_accepts, post_claims}
use civicpatch_tools.Projection.Memberships.Holding.{membership_state_lem}
use civicpatch_tools.Projection.History.{Membership, Person}
use civicpatch_tools.Projection.Roles.{Taxonomy}
use civicpatch_tools.Projection.Posts.{MembershipRecords}
use civicpatch_tools.Projection.Posts.Buckets.{records_by_post_lem}
use civicpatch_tools.Projection.Posts.Organizations.{post_of-organization}
use civicpatch_tools.Projection.Reads.{Read, reads_of}
use civicpatch_tools.Projection.Reads.Listed.{reads_of-last}
use civicpatch_tools.Projection.Shared.{Shared}
use civicpatch_tools.Projection.People.{
  Fact, said, listed, records_of, evidence_of, first_seen, newest_membership_fact, greatest_stamp,
  own_by_post, candidates, active_posts, person_of, derive_membership, derive_person, post_le,
}
use civicpatch_tools.Projection.People.Spoken.{spoken, Keeps}
use civicpatch_tools.Projection.People.Collapse.{
  Keeps-subset, in_organization, collapse_per_organization_lem,
}

-- A list that is not empty.
abbrev Some : {A : Type 0} → List A → Type 0
Some [] = ⊥
Some (x ∷ xs) = Unit

Some-of_Has : {A : Type 0} (x : A) (xs : List A) → Has x xs → Some xs
Some-of_Has x [] m = m
Some-of_Has x (y ∷ ys) m = tt

-- Of a post that a cluster holds there is a fact that says so.
held_by_a_fact :
    (members : List String) (post : PostKey) (own_records : List SourceRecord) (facts : Facts)
    → membership_state members post own_records facts ≡ true
    → Some (post_accepts members post facts) ⊎ Some own_records
unfolding post_accepts
held_by_a_fact members post own_records facts h =
    elim ((membership_state_lem members post own_records facts).0 h) [
      | inl (c, e, k) ↦ inl (
          Some-of_Has c (keep (λ c. c.kind == ClaimKind.accept) (post_claims members post facts)) (
            (Has-keep (λ c. c.kind == ClaimKind.accept) c (post_claims members post facts)).1 (
              last-Has claim_le-IsOrder (post_claims members post facts) e,
              eqb_of_eq c.kind ClaimKind.accept k,
            )))
      | inr (read, e, (r, m, q), later) ↦ inr (Some-of_Has r own_records m)
    ]

Some-append_left : {A : Type 0} (xs ys : List A) → Some xs → Some (xs ++ ys)
Some-append_left (x ∷ xs) ys h = tt
Some-append_left [] ys h = absurd h

Some-append_right : {A : Type 0} (xs ys : List A) → Some ys → Some (xs ++ ys)
Some-append_right [] ys h = h
Some-append_right (x ∷ xs) ys h = tt

Some-map : {A B : Type 0} (f : A → B) (xs : List A) → Some xs → Some (map f xs)
Some-map f [] h = h
Some-map f (x ∷ xs) h = tt

greatest_stamp-returns : (fs : List Fact) → Some fs → (s : Stamp) × (greatest_stamp fs ≡ some s)
unfolding greatest_stamp
greatest_stamp-returns [] h = absurd h
greatest_stamp-returns (f ∷ fs) h = (_, refl)

first_seen-returns : (fs : List Fact) → Some fs → (at : ℕ) × (first_seen fs ≡ some at)
unfolding first_seen
first_seen-returns [] h = absurd h
first_seen-returns (f ∷ fs) h = (_, refl)

-- A call that returns, and a value made from what it returns.
bind-returns :
    {A B : Type 0} (f : A → B) (o : Option A)
    → ((a : A) × (o ≡ some a))
    → (b : B) × ((o >>= λ a. some (f a)) ≡ some b)
bind-returns f o (a, e) = (f a, rw e refl)

evidence_of-records :
    (by_post : Dict PostKey MembershipRecords) (post : PostKey)
    → (evidence_of by_post post).records ≡ records_of by_post post
unfolding evidence_of records_of
evidence_of-records by_post post = elim (Option-cases (get post by_post)) [
  | inl e ↦ rw e
  | inr (evidence, e) ↦ rw e
]

module _ (shared : Shared) (taxonomy : Taxonomy) (members : List String) (facts : Facts) where
  abbrev by_post : Dict PostKey MembershipRecords
  by_post = own_by_post shared taxonomy members facts

  abbrev active : List PostKey
  active = active_posts shared taxonomy members facts

  active-held :
      (p : PostKey)
      → Has p active
      → Some (post_accepts members p facts) ⊎ Some (records_of by_post p)
  unfolding active_posts
  active-held p m =
      held_by_a_fact members p (records_of by_post p) facts
        ((Has-keep _ p (candidates shared taxonomy members facts)).0 m).1

  spoken-returns :
      (p : PostKey) → Has p active → (s : Stamp) × (spoken members by_post facts p ≡ some s)
  unfolding newest_membership_fact
  spoken-returns p m = greatest_stamp-returns _ (elim (active-held p m) [
    | inl a ↦ Some-append_left (map said (post_accepts members p facts)) _ (Some-map said _ a)
    | inr r ↦ Some-append_right (map said (post_accepts members p facts)) _ (Some-map listed _ r)
  ])

  derive_membership-returns :
      (p : PostKey)
      → Has p active
      → (m : Membership) × (derive_membership shared members p (evidence_of by_post p) facts
          ≡ some m)
  unfolding derive_membership
  derive_membership-returns p m = bind-returns _ _ (
      first_seen-returns
        (map listed (evidence_of by_post p).records ++ map said (post_accepts members p facts))
        (elim (active-held p m) [
          | inl a ↦
              Some-append_right (map listed (evidence_of by_post p).records) _ (Some-map said _ a)
          | inr r ↦ Some-append_left (map listed (evidence_of by_post p).records) _ (
              Some-map listed (evidence_of by_post p).records
                (rw (evidence_of-records by_post p) r))
        ]))

  derive_membership-post :
      (p : PostKey) (m : Membership)
      → derive_membership shared members p (evidence_of by_post p) facts ≡ some m
      → m.post ≡ p
  unfolding derive_membership
  derive_membership-post p m h =
      elim (Option-cases (
        first_seen (
          map listed (evidence_of by_post p).records ++ map said (post_accepts members p facts)))) [
            | inl e ↦ absurd (cc (rw e at h))
            | inr (at, e) ↦
                let q : some p ≡ some m.post =
                  ap (Option.map (λ (x : Membership). x.post)) (rw e at h) in
                cc
          ]

  -- What is kept is held.
  kept-active :
      (kept : List PostKey)
      → ((o : String)
          → Keeps members by_post facts (in_organization o active) (in_organization o kept))
      → (p : PostKey) → Has p kept
      → Has p active
  kept-active kept keeps p m =
      ((Has-keep (λ q. q.organization_id == p.organization_id) p active).0 (
        Keeps-subset members by_post facts (in_organization p.organization_id active)
          (in_organization p.organization_id kept) (keeps p.organization_id) p
          ((Has-keep (λ q. q.organization_id == p.organization_id) p kept).1
            (m, eqb_refl p.organization_id)))).0

  -- Where a post has a record, its organization has a last read.
  abbrev pub HasLastRead : PostKey → Type 0
  HasLastRead p =
      (r : SourceRecord)
      → Has r (records_of by_post p)
      → (read : Read) × (last (reads_of p.organization_id facts) ≡ some read)

  records_of-HasLastRead : (p : PostKey) → HasLastRead p
  unfolding own_by_post records_of
  records_of-HasLastRead p r h =
      let mine = keep (λ r. mem r.person_id members) facts.records in
      let (m, e) =
        ((records_by_post_lem shared.parse_label shared.division_ocdid taxonomy mine p).0 r).0 h in
      reads_of-last p.organization_id facts r
        ((Has-keep (λ r. mem r.person_id members) r facts.records).0 m).0
        (sym (post_of-organization shared.parse_label shared.division_ocdid taxonomy mine r p e))

  -- Deriving a person never fails, and the organization of a post that has records has a last read,
  -- which is when one is asked for. The person has the id given, and one membership for each post
  -- kept, in the order of the posts' ids: in an organization, all the posts that the cluster holds
  -- if nobody accepted one of them, else exactly one, the post of which a fact spoke last.
  pub derive_person-returns :
      (person_id : String)
      → (person : Person) × (kept : List PostKey) × (derive_person shared taxonomy person_id members
            facts
          ≡ some person)
        × (person.id ≡ person_id)
        × (map (λ m. m.post) person.memberships ≡ sorted (post_le shared) kept)
        × ((o : String)
            → Keeps members
                (own_by_post shared taxonomy members facts)
                facts
                (in_organization o (active_posts shared taxonomy members facts))
                (in_organization o kept))
        × ((p : PostKey) → HasLastRead p)
  unfolding derive_person person_of
  derive_person-returns person_id =
      let (kept, found, keeps) =
        collapse_per_organization_lem members by_post facts active spoken-returns in
      let derive =
        λ (p : PostKey). derive_membership shared members p (evidence_of by_post p) facts in
      let (memberships, founds, gave) = each-returns derive (sorted (post_le shared) kept) (λ p m.
        derive_membership-returns p
          (kept-active kept keeps p ((Has-sorted (post_le shared) p kept).0 m))) in
      (
        person_of shared taxonomy person_id members facts memberships,
        kept,
        rw (found, founds) refl,
        refl,
        map-each derive (λ m. m.post) derive_membership-post (sorted (post_le shared) kept)
            memberships founds,
        keeps,
        records_of-HasLastRead,
      )
