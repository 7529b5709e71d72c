-- ===== src/Projection/Shared.antt =====
-- What the fold calls in shared/src/shared/utils: the parser of one label and the id of the division
-- that a parse names (label_parser.py, for one jurisdiction), the hash that is a membership's id
-- (membership_ids.py), the hash that is a post's id, and the rules for names, phones and emails
-- (name_utils.py, phone_utils.py, email_utils.py), which rest on third-party parsers.
use civicpatch_tools.Prelude.{String, Bool}
use civicpatch_tools.Projection.Facts.{PostKey}
use civicpatch_tools.Projection.FieldValue.{Normalizers}
use civicpatch_tools.Projection.Roles.{ParsedLabel}

pub record Shared : Type 0 where
  pub parse_label : String → ParsedLabel
  pub division_ocdid : ParsedLabel → String
  pub post_id : PostKey → String
  pub membership_id : String → String → String
  pub normalizers : Normalizers
  pub name_comparison_key : String → String
  pub strip_titles_and_credentials : String → String
  pub same_name : String → String → Bool
