-- ===== src/Projection/Posts/Buckets.antt =====
-- Which post each of a cluster's records is filed under.
use civicpatch_tools.Prelude.{
  String, ◌≡◌, ◌↔◌, ◌⊎◌, inl, inr, refl, sym, ◌∙◌, ap, Bool, true, Option, none, some, List, [],
  ◌∷◌, ◌++◌, ◌==◌, keep, Has, Has-append, Has-keep, Bool-cases, eqb_refl, if◌then◌else◌, eqb_of_eq,
  eq_of_eqb, option_eq, string_eq,
}
use civicpatch_tools.Prelude.Dict.{Dict, get, get-put, put, values, group_by}
use civicpatch_tools.Prelude.Groups.{Has-values-groups}
use civicpatch_tools.Prelude.Equality.{prod_eq}
use civicpatch_tools.Prelude.Sort.{sorted, Has-sorted}
use civicpatch_tools.Projection.Facts.{PostKey, post_eq, SourceRecord, record_le}
use civicpatch_tools.Projection.Roles.{Taxonomy, ParsedLabel}
use civicpatch_tools.Projection.Posts.{
  LabelDetails, MembershipRecords, parse_labels, batch_key, earlier_records, land, land_all,
  records_by_post,
}

-- The records of some batches, one after the other.
abbrev pub all_records : List (List SourceRecord) → List SourceRecord
all_records [] = []
all_records (b ∷ bs) = b ++ all_records bs

Has-all_records :
    (r : SourceRecord) (bs : List (List SourceRecord))
    → Has r (all_records bs) ↔ ((b : List SourceRecord) × Has b bs × Has r b)
Has-all_records r [] = (λ h. absurd h, λ h. absurd h.1)
Has-all_records r (b ∷ bs) = (
  λ h. elim ((Has-append r b (all_records bs)).0 h) [
    | inl m ↦ (b, inl refl, m)
    | inr m ↦ let (c, k, n) = (Has-all_records r bs).0 m in (c, inr k, n)
  ],
  λ (c, k, n).
      (Has-append r b (all_records bs)).1
        (elim k [ inl q ↦ inl (rw (← q) n) | inr j ↦ inr ((Has-all_records r bs).1 (c, j, n)) ]),
)

-- The batch that a record is in: the records of its changeset and its organization, oldest first.
abbrev pub batch_of : List SourceRecord → SourceRecord → List SourceRecord
batch_of records r = keep (λ x. batch_key x == batch_key r) (sorted record_le records)

module _ (parse_label : String → ParsedLabel) (division_ocdid : ParsedLabel → String)
    (taxonomy : Taxonomy) where
  -- The post that a batch's labels name, and what else they say.
  unfoldable pub read_batch : List SourceRecord → Option (PostKey × LabelDetails)
  read_batch [] = none
  read_batch (r ∷ rs) = some (parse_labels parse_label division_ocdid taxonomy r rs)

  abbrev pub post_of : Option (PostKey × LabelDetails) → Option PostKey
  post_of none = none
  post_of (some (post, details)) = some post

  abbrev pub details_of : Option (PostKey × LabelDetails) → Option LabelDetails
  details_of none = none
  details_of (some (post, details)) = some details

  abbrev lands_in : PostKey → List SourceRecord → Bool
  lands_in post batch = post_of (read_batch batch) == some post

  abbrev filed : Option MembershipRecords → SourceRecord → List SourceRecord → MembershipRecords
  filed had r rs = record {
    records = earlier_records had ++ r ∷ rs;
    details = (parse_labels parse_label division_ocdid taxonomy r rs).1;
  }

  -- What a post has once some batches have landed in it.
  gather : Option MembershipRecords → List (List SourceRecord) → Option MembershipRecords
  gather had [] = had
  gather had ([] ∷ bs) = gather had bs
  gather had ((r ∷ rs) ∷ bs) = gather (some (filed had r rs)) bs

  -- One batch that lands in a post, or elsewhere.
  get-put_post :
      (post : PostKey) (there : PostKey × LabelDetails) (by_post : Dict PostKey MembershipRecords)
      (records : List SourceRecord) (bs : List (List SourceRecord))
      → gather
          (get post (
            put there.0
              (record {
                records = earlier_records (get there.0 by_post) ++ records;
                details = there.1;
              })
              by_post))
          bs
        ≡ (if there.0 == post
            then gather
                (some (record {
                  records = earlier_records (get post by_post) ++ records;
                  details = there.1;
                }))
                bs
            else gather (get post by_post) bs)
  get-put_post post there by_post records bs = elim (Bool-cases (there.0 == post)) [
    | inl t ↦ rw (get-put, t) (rw (eq_of_eqb there.0 post t) refl)
    | inr f ↦ rw (get-put, f)
  ]

  get-land_all :
      (post : PostKey) (by_post : Dict PostKey MembershipRecords) (bs : List (List SourceRecord))
      → get post (land_all parse_label division_ocdid taxonomy by_post bs)
        ≡ gather (get post by_post) (keep (lands_in post) bs)
  unfolding land_all land read_batch gather
  get-land_all post by_post [] = refl
  get-land_all post by_post ([] ∷ bs) = get-land_all post by_post bs
  get-land_all post by_post ((r ∷ rs) ∷ bs) =
      let there = parse_labels parse_label division_ocdid taxonomy r rs in
      rw (get-land_all post (land parse_label division_ocdid taxonomy by_post (r ∷ rs)) bs) (
        rw (get-put_post post there by_post (r ∷ rs) (keep (lands_in post) bs))
          (elim (Bool-cases (there.0 == post)) [ inl t ↦ rw t refl | inr f ↦ rw f refl ]))

  Has-gather :
      (r : SourceRecord) (had : Option MembershipRecords) (bs : List (List SourceRecord))
      → Has r (earlier_records (gather had bs))
        ↔ (Has r (earlier_records had) ⊎ Has r (all_records bs))
  unfolding gather
  Has-gather r had [] = (inl, λ h. elim h [ inl m ↦ m | inr m ↦ absurd m ])
  Has-gather r had ([] ∷ bs) = Has-gather r had bs
  Has-gather r had ((x ∷ xs) ∷ bs) =
      let ih = Has-gather r (some (filed had x xs)) bs in
      let grown = Has-append r (earlier_records had) (x ∷ xs) in
      let rest = Has-append r (x ∷ xs) (all_records bs) in
      (
        λ h. elim (ih.0 h) [
          | inl m ↦ elim (grown.0 m) [ inl k ↦ inl k | inr k ↦ inr (rest.1 (inl k)) ]
          | inr m ↦ inr (rest.1 (inr m))
        ],
        λ h. ih.1 (elim h [
          | inl m ↦ inl (grown.1 (inl m))
          | inr m ↦ elim (rest.0 m) [ inl k ↦ inl (grown.1 (inr k)) | inr k ↦ inr k ]
        ]),
      )

  gather-details :
      (had : Option MembershipRecords) (bs : List (List SourceRecord))
      {evidence : MembershipRecords}
      → gather had bs ≡ some evidence
      → (had ≡ some evidence)
        ⊎ ((b : List SourceRecord) × Has b bs × (details_of (read_batch b) ≡ some evidence.details))
  unfolding gather read_batch
  gather-details had [] h = inl h
  gather-details had ([] ∷ bs) h = elim (gather-details had bs h) [
    | inl e ↦ inl e
    | inr (b, m, e) ↦ inr (b, inr m, e)
  ]
  gather-details had ((x ∷ xs) ∷ bs) {evidence} h =
      elim (gather-details (some (filed had x xs)) bs h) [
        | inl e ↦ inr (x ∷ xs, inl refl, ap some (first_details e))
        | inr (b, m, e) ↦ inr (b, inr m, e)
      ]
    where
      first_details : {a b : MembershipRecords} → some a ≡ some b → a.details ≡ b.details
      first_details e = cc

  lands_with :
      (post : PostKey) (b : List SourceRecord) (details : LabelDetails)
      → lands_in post b ≡ true
      → details_of (read_batch b) ≡ some details
      → read_batch b ≡ some (post, details)
  lands_with post b details t e = with_answer (read_batch b) t e
    where
      with_answer :
          (answer : Option (PostKey × LabelDetails))
          → (post_of answer == some post) ≡ true
          → details_of answer ≡ some details
          → answer ≡ some (post, details)
      with_answer none t e = absurd (cc)
      with_answer (some (p, d)) t e = cc (eq_of_eqb (some p) (some post) t, e)

  module _ (records : List SourceRecord) where
    abbrev batches : List (List SourceRecord)
    batches = values (group_by batch_key [] (sorted record_le records))

    Has-batches :
        (b : List SourceRecord)
        → Has b batches ↔ ((r : SourceRecord) × Has r records × (b ≡ batch_of records r))
    Has-batches b =
        let groups = Has-values-groups batch_key b (sorted record_le records) in
        (
          λ m. let (r, j, e) = groups.0 m in (r, (Has-sorted record_le r records).0 j, e),
          λ (r, m, e). groups.1 (r, (Has-sorted record_le r records).1 m, e),
        )

    in_own_batch : (r : SourceRecord) → Has r records → Has r (batch_of records r)
    in_own_batch r m =
        (Has-keep _ r (sorted record_le records)).1
          ((Has-sorted record_le r records).1 m, eqb_refl (batch_key r))

    same_batch :
        (r s : SourceRecord)
        → Has r (batch_of records s)
        → Has r records × (batch_of records s ≡ batch_of records r)
    same_batch r s m =
        let (k, t) = (Has-keep _ r (sorted record_le records)).0 m in
        (
          (Has-sorted record_le r records).0 k,
          ap (λ k. keep (λ x. batch_key x == k) (sorted record_le records))
              (sym (eq_of_eqb (batch_key r) (batch_key s) t)),
        )

  -- `records_by_post` files a record under a post exactly if it is one of the records and the labels
  -- of its batch, those of its changeset and its organization, name that post; and what a post's
  -- evidence says beside is what one of the batches filed there says.
  pub records_by_post_lem :
      (records : List SourceRecord) (post : PostKey)
      → ((r : SourceRecord)
          → Has r (
              earlier_records
                (get post (records_by_post parse_label division_ocdid taxonomy records)))
            ↔ (Has r records × (post_of (read_batch (batch_of records r)) ≡ some post)))
        × ((evidence : MembershipRecords)
            → get post (records_by_post parse_label division_ocdid taxonomy records) ≡ some evidence
            → (r : SourceRecord) × Has r records
              × (read_batch (batch_of records r) ≡ some (post, evidence.details)))
  unfolding records_by_post
  records_by_post_lem records post =
      let found = get-land_all post [] (batches records) in
      (
        λ r. (
          λ h.
              elim ((Has-gather r none (keep (lands_in post) (batches records))).0
                (rw found at h)) [
                  | inl w ↦ absurd w
                  | inr m ↦
                      let (b, n, own) = (Has-all_records r _).0 m in
                      let (k, t) = (Has-keep (lands_in post) b (batches records)).0 n in
                      let (s, j, q) = (Has-batches records b).0 k in
                      let (mine, same) = same_batch records r s (rw q at own) in
                      (
                        mine,
                        ap (λ b. post_of (read_batch b)) (sym (q ∙ same))
                            ∙ eq_of_eqb _ (some post) t,
                      )
                ],
          λ (m, e). rw found (
              (Has-gather r none (keep (lands_in post) (batches records))).1 (
                inr (
                  (Has-all_records r _).1 (
                    batch_of records r,
                    (Has-keep (lands_in post) (batch_of records r) (batches records)).1 (
                      (Has-batches records (batch_of records r)).1 (r, m, refl),
                      eqb_of_eq _ (some post) e,
                    ),
                    in_own_batch records r m,
                  )))),
        ),
        λ evidence h.
            elim (gather-details none (keep (lands_in post) (batches records)) (sym found ∙ h)) [
              | inl e ↦ absurd (cc)
              | inr (b, n, e) ↦
                  let (k, t) = (Has-keep (lands_in post) b (batches records)).0 n in
                  let (r, j, q) = (Has-batches records b).0 k in
                  (r, j, rw q at (lands_with post b evidence.details t e))
            ],
      )
