-- ===== src/Projection/Posts/Organizations.antt =====
-- A record's post is in the record's organization.
use civicpatch_tools.Prelude.{
  String, ◌≡◌, refl, sym, ap, ◌∙◌, some, List, [], ◌∷◌, ◌==◌, Has, Has-keep, inl, eq_of_eqb,
  string_eq,
}
use civicpatch_tools.Prelude.Equality.{prod_eq}
use civicpatch_tools.Prelude.Sort.{sorted}
use civicpatch_tools.Projection.Facts.{PostKey, SourceRecord, record_le}
use civicpatch_tools.Projection.Roles.{Taxonomy, ParsedLabel}
use civicpatch_tools.Projection.Posts.{batch_key, parse_labels}
use civicpatch_tools.Projection.Posts.Buckets.{post_of, read_batch, batch_of}

module _ (parse_label : String → ParsedLabel) (division_ocdid : ParsedLabel → String)
    (taxonomy : Taxonomy) where
  read_batch-organization :
      (batch : List SourceRecord) (organization_id : String) (post : PostKey)
      → ((x : SourceRecord) → Has x batch → x.organization_id ≡ organization_id)
      → post_of parse_label division_ocdid taxonomy
          (read_batch parse_label division_ocdid taxonomy batch)
        ≡ some post
      → post.organization_id ≡ organization_id
  unfolding read_batch parse_labels
  read_batch-organization [] o post own e = absurd (cc)
  read_batch-organization (x ∷ xs) o post own e =
      let q : (parse_labels parse_label division_ocdid taxonomy x xs).0 ≡ post = cc in
      sym (ap (λ (p : PostKey). p.organization_id) q) ∙ own x (inl refl)

  pub post_of-organization :
      (records : List SourceRecord) (r : SourceRecord) (post : PostKey)
      → post_of parse_label division_ocdid taxonomy
          (read_batch parse_label division_ocdid taxonomy (batch_of records r))
        ≡ some post
      → post.organization_id ≡ r.organization_id
  post_of-organization records r post e =
      read_batch-organization (batch_of records r) r.organization_id post
        (λ x m.
          ap (λ (k : String × String). k.1)
            (eq_of_eqb (batch_key x) (batch_key r)
              ((Has-keep (λ x. batch_key x == batch_key r) x (sorted record_le records)).0 m).1))
        e
