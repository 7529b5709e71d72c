-- ===== src/PostDeletion.antt =====
-- civicpatch.org/src/core/post_deletion.py: when a post may be deleted into another one. `Post` is
-- that of shared/src/shared/schemas.py. The claim that a deletion files is not modelled.
mod Tests
pub mod Allowed
use civicpatch_tools.Prelude.{
  ℕ, String, Bool, not, ◌&&◌, Option, none, some, ◌==◌, if◌then◌else◌, string_eq,
}
use civicpatch_tools.Projection.Facts.{PostKey}

pub record Post : Type 0 where
  pub id : String
  pub jurisdiction_ocdid : String
  pub organization_id : String
  pub role_id : String
  pub division_ocdid : String
  pub label : String
  pub role_label : String
  pub meta_headcount : ℕ

-- The key that the projection knows a post by.
abbrev pub key_of : Post → PostKey
key_of post = record {
  organization_id = post.organization_id;
  role_id = post.role_id;
  division_ocdid = post.division_ocdid;
}

-- Why `into` cannot take this post's memberships.
unfoldable pub merge_refusal : Post → Post → Option String
merge_refusal post into =
    if post.id == into.id
    then some "A post cannot be deleted into itself."
    else if not (post.jurisdiction_ocdid == into.jurisdiction_ocdid)
    then some "The post to move to is in another jurisdiction."
    else if post.organization_id == into.organization_id
    then some "The post to move to is in the same organization."
    else if not (post.role_id == into.role_id && post.division_ocdid == into.division_ocdid)
    then some "The post to move to must have the same role and division."
    else none
