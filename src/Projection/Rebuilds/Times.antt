-- ===== src/Projection/Rebuilds/Times.antt =====
-- The reads of an organization, from two listings of the same records and page rows.
use civicpatch_tools.Prelude.{
  ℕ, String, ◌≡◌, inl, inr, refl, sym, ap, ◌∙◌, List, [], ◌∷◌, map, Has, Has-map, Distinct,
  string_eq,
}
use civicpatch_tools.Prelude.Dict.{Dict, keys}
use civicpatch_tools.Prelude.Same.{
  SameElements, Ascending-unique, stamp_leb_antisym, Distinct-of_map,
}
use civicpatch_tools.Prelude.Sort.{Distinct-sorted}
use civicpatch_tools.Prelude.Stamp.{Stamp}
use civicpatch_tools.Projection.Facts.{Facts}
use civicpatch_tools.Projection.Reads.{
  Read, read_le, read_stamp, reads_of, to_read, time_by_changeset,
}
use civicpatch_tools.Projection.Reads.Listed.{
  WasRead, Distinct-times, keys-times, Has-read, Ascending-reads,
}
use civicpatch_tools.Projection.Reads.Times.{times-dated}
use civicpatch_tools.Projection.Rebuilds.{SameFacts, IsWrittenAtOnce, Agreeing}

flip : {A : Type 0} (xs ys : List A) → SameElements xs ys → SameElements ys xs
flip xs ys same x = ((same x).1, (same x).0)

module _ (organization_id : String) (a b : Facts) (records : SameElements a.records b.records)
    (pages : SameElements a.reads b.reads) where
  WasRead-onto : (c : String) → WasRead organization_id a c → WasRead organization_id b c
  WasRead-onto c (inl (p, m, o, k)) = inl (p, (pages p).0 m, o, k)
  WasRead-onto c (inr (r, m, o, k)) = inr (r, (records r).0 m, o, k)

  -- Two times of one changeset, one from each listing, are one.
  one_time :
      (c : String) (t u : ℕ)
      → IsWrittenAtOnce b
      → Has (c, t) (time_by_changeset organization_id a)
      → Has (c, u) (time_by_changeset organization_id b)
      → t ≡ u
  one_time c t u at_once m n = elim (times-dated organization_id a c t m) [
    | inl (p, i, o, k, e) ↦ elim (times-dated organization_id b c u n) [
      | inl (q, j, l, h, d) ↦ sym e ∙ at_once.pages_at_once p q ((pages p).0 i) j (k ∙ sym h) ∙ d
      | inr (found, unnamed) ↦ absurd (unnamed (p, (pages p).0 i, o, k))
    ]
    | inr ((r, i, o, k, e), unnamed) ↦ elim (times-dated organization_id b c u n) [
      | inl (q, j, l, h, d) ↦ absurd (unnamed (q, (pages q).1 j, l, h))
      | inr ((s, j, l, h, d), also) ↦
          sym e ∙ at_once.records_at_once r s ((records r).0 i) j (k ∙ sym h) (o ∙ sym l) ∙ d
    ]
  ]

  times-onto :
      IsWrittenAtOnce b
      → (read : Read) → Has read (reads_of organization_id a)
      → Has read (reads_of organization_id b)
  times-onto at_once read h =
      let m = (Has-read organization_id a read).0 h in
      let known = (keys-times organization_id a read.changeset_id).0 (
        (Has-map (λ e. e.0) (time_by_changeset organization_id a)).1
          ((read.changeset_id, read.created_at), m, refl)) in
      let (x, n, q) = (Has-map (λ e. e.0) (time_by_changeset organization_id b)).0 (
        (keys-times organization_id b read.changeset_id).1
          (WasRead-onto read.changeset_id known)) in
      let n' : Has (read.changeset_id, x.1) (time_by_changeset organization_id b) = rw q n in
      let t = one_time read.changeset_id read.created_at x.1 at_once m n' in
      (Has-read organization_id b read).1 (rw t n')

changesets_of : (times : Dict String ℕ) → map (λ r. r.changeset_id) (map to_read times) ≡ keys times
changesets_of [] = refl
changesets_of ((c, t) ∷ times) = ap (λ ks. c ∷ ks) (changesets_of times)

Distinct-reads_of :
    (organization_id : String) (facts : Facts) → Distinct (reads_of organization_id facts)
unfolding reads_of
Distinct-reads_of organization_id facts =
    let times = time_by_changeset organization_id facts in
    Distinct-sorted read_le (map to_read times) (
      Distinct-of_map (λ (r : Read). r.changeset_id) (map to_read times)
        (rw (changesets_of times) (Distinct-times organization_id facts)))

IsWrittenAtOnce-onto : (a b : Facts) → SameFacts a b → IsWrittenAtOnce b
IsWrittenAtOnce-onto a b same = record {
  records_at_once = λ r s m n.
      same.at_once.records_at_once r s ((same.same_records r).1 m) ((same.same_records s).1 n);
  pages_at_once =
      λ p q m n. same.at_once.pages_at_once p q ((same.same_pages p).1 m) ((same.same_pages q).1 n);
}

reads_of_same :
    (a b : Facts)
    → SameFacts a b
    → (organization_id : String) → reads_of organization_id a ≡ reads_of organization_id b
reads_of_same a b same organization_id =
    Ascending-unique read_le (reads_of organization_id a) (reads_of organization_id b)
      (λ r s m n h k.
        let q : read_stamp r ≡ read_stamp s = stamp_leb_antisym (read_stamp r) (read_stamp s) h k in
        same_read r s q)
      (Ascending-reads organization_id a) (Ascending-reads organization_id b)
      (Distinct-reads_of organization_id a) (Distinct-reads_of organization_id b)
      (λ read. (
        times-onto organization_id a b same.same_records same.same_pages
            (IsWrittenAtOnce-onto a b same) read,
        times-onto organization_id b a (flip a.records b.records same.same_records)
            (flip a.reads b.reads same.same_pages) same.at_once read,
      ))
  where
    same_read : (r s : Read) → read_stamp r ≡ read_stamp s → r ≡ s
    same_read r s q =
        let e : r.created_at ≡ s.created_at = ap (λ (x : Stamp). x.0) q in
        let d : r.changeset_id ≡ s.changeset_id = ap (λ (x : Stamp). x.1) q in cc

-- Two listings of the same facts agree on what the fold reads of them.
pub SameFacts-Agreeing : (a b : Facts) → SameFacts a b → Agreeing a b
SameFacts-Agreeing a b same = record {
  records_same = same.same_records;
  claims_same = same.same_claims;
  reads_same = reads_of_same a b same;
  left_once = same.once;
  right_once = same.once_too;
}
