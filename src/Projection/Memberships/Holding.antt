-- ===== src/Projection/Memberships/Holding.antt =====
-- When a cluster holds a post.
use civicpatch_tools.Prelude.{
  ◌<◌, ◌≤◌, String, ◌≡◌, ◌↔◌, ◌⊎◌, inl, inr, refl, Bool, true, false, Option, none, some, List, [],
  ◌∷◌, ◌==◌, arith, Has, any_of-true, any_of-Has, last, Bool-cases, Option-cases, if◌then◌else◌,
  string_eq, option_eq, eq_of_eqb, eqb_of_eq, keep,
}
use civicpatch_tools.Prelude.Sort.{Ascending, sorted-Ascending, last-Has, last-greatest, last-none}
use civicpatch_tools.Prelude.Newest.{Ascending-keep}
use civicpatch_tools.Prelude.Stamp.{by_stamp-IsOrder, stamp_leb→le}
use civicpatch_tools.Projection.Facts.{
  Claim, ClaimKind, PostKey, SourceRecord, Facts, claim_le, claim_stamp, kind_eq, post_eq,
}
use civicpatch_tools.Projection.Reads.{Read, reads_of}
use civicpatch_tools.Projection.Memberships.{
  all_posts_claims, post_claims, listed_in, bars, is_accept, decide_by_page, membership_state,
}

-- A human put the cluster there last, or the last read of the organization lists it there and is
-- later than all that was claimed about it.
abbrev pub Holds : List Claim → List SourceRecord → List Read → Type 0
Holds claims own_records reads =
    ((c : Claim) × (last claims ≡ some c) × (c.kind ≡ ClaimKind.accept))
    ⊎ ((read : Read) × (last reads ≡ some read)
        × ((r : SourceRecord) × Has r own_records × (r.changeset_id ≡ read.changeset_id))
        × ((c : Claim) → Has c claims → c.created_at < read.created_at))

all_posts_claims-Ascending :
    (members : List String) (facts : Facts) → Ascending claim_le (all_posts_claims members facts)
unfolding all_posts_claims
all_posts_claims-Ascending members facts =
    sorted-Ascending (by_stamp-IsOrder claim_stamp) (keep _ facts.claims)

pub post_claims-Ascending :
    (members : List String) (post : PostKey) (facts : Facts)
    → Ascending claim_le (post_claims members post facts)
unfolding post_claims
post_claims-Ascending members post facts =
    Ascending-keep claim_le (λ c. c.post == some post) (all_posts_claims members facts)
      (all_posts_claims-Ascending members facts)

listed_in-Has :
    (own_records : List SourceRecord) (read : Read)
    → (listed_in own_records (some read) ≡ true)
      ↔ ((r : SourceRecord) × Has r own_records × (r.changeset_id ≡ read.changeset_id))
unfolding listed_in
listed_in-Has own_records read = (
  λ h.
      let (r, m, e) = any_of-true (λ r. r.changeset_id == read.changeset_id) own_records h in
      (r, m, eq_of_eqb r.changeset_id read.changeset_id e),
  λ (r, m, e).
      any_of-Has (λ r. r.changeset_id == read.changeset_id) own_records r m
        (eqb_of_eq r.changeset_id read.changeset_id e),
)

-- A claim is no later than the newest one.
no_later :
    (claims : List Claim) (c d : Claim)
    → Ascending claim_le claims
    → last claims ≡ some c
    → Has d claims
    → d.created_at ≤ c.created_at
unfolding claim_stamp
no_later claims c d up e m =
    stamp_leb→le (claim_stamp d) (claim_stamp c)
      (last-greatest (by_stamp-IsOrder claim_stamp) claims up e m)

-- What bars a cluster from a post that it is listed in.
bars-Has :
    (claims : List Claim) (read : Read)
    → Ascending claim_le claims
    → (bars (last claims) (some read) ≡ false)
      ↔ ((c : Claim) → Has c claims → c.created_at < read.created_at)
unfolding bars
bars-Has claims read up = elim (Option-cases (last claims)) [
  | inl e ↦ rw e (λ h c m. absurd (rw (last-none claims e) at m), λ h. refl)
  | inr (newest, e) ↦ rw e (
    λ h c m. let le = no_later claims newest c up e m in ground (arith, le, h),
    λ h.
        let less = h newest (last-Has (by_stamp-IsOrder claim_stamp) claims e) in
        ground (arith, less),
  )
]

is_accept-Has :
    (newest : Option Claim)
    → (is_accept newest ≡ true) ↔ ((c : Claim) × (newest ≡ some c) × (c.kind ≡ ClaimKind.accept))
unfolding is_accept
is_accept-Has none = (λ h. absurd (cc), λ (c, e, k). absurd (cc))
is_accept-Has (some c) = (
  λ h. (c, refl, eq_of_eqb c.kind ClaimKind.accept h),
  λ (d, e, k). let q : c ≡ d = cc in rw q (eqb_of_eq d.kind ClaimKind.accept k),
)

never : (b : Bool) → ¬ ((if b then false else false) ≡ true)
never true h = cc h
never false h = cc h

-- The page's answer, when the newest claim is no accept.
decide_by_page-Has :
    (claims : List Claim) (own_records : List SourceRecord) (reads : List Read)
    → Ascending claim_le claims
    → (decide_by_page own_records (last claims) (last reads) ≡ true) ↔ (
        (read : Read) × (last reads ≡ some read)
        × ((r : SourceRecord) × Has r own_records × (r.changeset_id ≡ read.changeset_id))
        × ((c : Claim) → Has c claims → c.created_at < read.created_at))
unfolding decide_by_page
decide_by_page-Has claims [] reads up = (λ h. absurd (cc), λ (read, e, (r, m, q), n). absurd m)
decide_by_page-Has claims (r ∷ rs) reads up = elim (Option-cases (last reads)) [
  | inl e ↦ rw e (λ h. absurd (never (bars (last claims) none) h), λ (read, q, l, n). absurd (cc))
  | inr (read, e) ↦ rw e (
    λ h. elim (Bool-cases (bars (last claims) (some read))) [
      | inl t ↦ absurd (cc (rw t at h))
      | inr f ↦
          (read, refl, (listed_in-Has (r ∷ rs) read).0 (rw f at h), (bars-Has claims read up).0 f)
    ],
    λ (other, q, l, n).
        let same : read ≡ other = cc in
        let free = (bars-Has claims read up).1 (λ c m. rw same (n c m)) in
        rw free ((listed_in-Has (r ∷ rs) read).1 (rw same l)),
  )
]

abbrev pub HoldsExactly : List String → PostKey → List SourceRecord → Facts → Type 0
HoldsExactly members post own_records facts =
    (membership_state members post own_records facts ≡ true)
    ↔ Holds (post_claims members post facts) own_records (reads_of post.organization_id facts)

-- A cluster holds a post exactly if the newest claim about it is an accept, or the last read of
-- the organization lists the cluster there and is later than every claim about the post.
pub membership_state_lem :
    (members : List String) (post : PostKey) (own_records : List SourceRecord) (facts : Facts)
    → HoldsExactly members post own_records facts
unfolding membership_state
membership_state_lem members post own_records facts =
    let claims = post_claims members post facts in
    let reads = reads_of post.organization_id facts in
    let accepts = is_accept-Has (last claims) in
    let listed =
      decide_by_page-Has claims own_records reads (post_claims-Ascending members post facts) in
    elim (Bool-cases (is_accept (last claims))) [
      | inl t ↦ rw t (λ h. inl (accepts.0 t), λ h. refl)
      | inr f ↦ rw f (
        λ h. inr (listed.0 h),
        λ h. elim h [ inl a ↦ absurd (cc (accepts.1 a)) | inr l ↦ listed.1 l ],
      )
    ]
