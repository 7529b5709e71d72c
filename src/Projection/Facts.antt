-- ===== src/Projection/Facts.antt =====
-- civicpatch.org/src/core/projection/facts.py: what was scraped and what people said, as data.
-- An id is a text, a `datetime` is a count of microseconds, and a claim's value is a text: the fold
-- reads no other kind, and nothing reads the value of a withdraw.
use civicpatch_tools.Prelude.{
  none, some, ℕ, String, ◌≡◌, ◌↔◌, Bool, true, ◌&&◌, Option, List, arith, HasEq, ◌==◌, nat_eqb,
  string_eq,
}
use civicpatch_tools.Prelude.Stamp.{Stamp, stamp_leb}

-- shared/src/shared/utils/statuses.py
pub data ClaimKind : Type 0 where
  accept reject withdraw : ClaimKind

pub data EntityType : Type 0 where
  person post membership jurisdiction organization source_record source_page claim : EntityType

kind_place : ClaimKind → ℕ
kind_place ClaimKind.accept = 0
kind_place ClaimKind.reject = 1
kind_place ClaimKind.withdraw = 2

entity_place : EntityType → ℕ
entity_place EntityType.person = 0
entity_place EntityType.post = 1
entity_place EntityType.membership = 2
entity_place EntityType.jurisdiction = 3
entity_place EntityType.organization = 4
entity_place EntityType.source_record = 5
entity_place EntityType.source_page = 6
entity_place EntityType.claim = 7

unfoldable pub kind_eqb : ClaimKind → ClaimKind → Bool
unfolding kind_place
kind_eqb a b = nat_eqb (kind_place a) (kind_place b)

pub kind_eqb_iff : (a b : ClaimKind) → (kind_eqb a b ≡ true) ↔ (a ≡ b)
unfolding kind_eqb
kind_eqb_iff a b = ground arith

unfoldable pub entity_eqb : EntityType → EntityType → Bool
unfolding entity_place
entity_eqb a b = nat_eqb (entity_place a) (entity_place b)

pub entity_eqb_iff : (a b : EntityType) → (entity_eqb a b ≡ true) ↔ (a ≡ b)
unfolding entity_eqb
entity_eqb_iff a b = ground arith

instance abbrev pub kind_eq : HasEq ClaimKind
kind_eq = record { eqb = kind_eqb; eqb_iff = kind_eqb_iff }

instance abbrev pub entity_eq : HasEq EntityType
entity_eq = record { eqb = entity_eqb; eqb_iff = entity_eqb_iff }

pub record PostKey : Type 0 where
  pub organization_id : String
  pub role_id : String
  pub division_ocdid : String

unfoldable pub post_eqb : PostKey → PostKey → Bool
post_eqb a b =
    a.organization_id == b.organization_id
    && (a.role_id == b.role_id && a.division_ocdid == b.division_ocdid)

pub post_eqb_iff : (a b : PostKey) → (post_eqb a b ≡ true) ↔ (a ≡ b)
unfolding post_eqb
post_eqb_iff a b = ground (
  arith,
  string_eq.eqb_iff a.organization_id b.organization_id,
  string_eq.eqb_iff a.role_id b.role_id,
  string_eq.eqb_iff a.division_ocdid b.division_ocdid,
)

instance abbrev pub post_eq : HasEq PostKey
post_eq = record { eqb = post_eqb; eqb_iff = post_eqb_iff }

pub record SourceRecord : Type 0 where
  pub id : String
  pub changeset_id : String
  pub created_at : ℕ
  pub person_id : String
  pub organization_id : String
  pub name : String
  pub label : String
  pub source_url : String
  pub other_names : List String
  pub url : Option String
  pub phone : Option String
  pub email : Option String
  pub image : Option String
  pub cdn_image : Option String
  pub start_date : Option String
  pub end_date : Option String
  pub is_partial : Bool

pub record Claim : Type 0 where
  pub id : String
  pub changeset_id : String
  pub created_at : ℕ
  pub entity_type : EntityType
  pub entity_id : String
  pub field_path : Option String
  pub kind : ClaimKind
  pub value : Option String
  pub post : Option PostKey

pub record SourcePage : Type 0 where
  pub id : String
  pub changeset_id : String
  pub created_at : ℕ
  pub organization_ids : List String

pub record Facts : Type 0 where
  pub records : List SourceRecord
  pub claims : List Claim
  pub withdraws : List Claim
  pub reads : List SourcePage

-- The id that a claim about identity names. Such a claim has one; an absent one would read as empty.
abbrev pub id_or_blank : Option String → String
id_or_blank none = ""
id_or_blank (some id) = id

abbrev pub value_id : Claim → String
value_id c = id_or_blank c.value

-- `latest_first`, on each of the two kinds of fact that it takes.
unfoldable pub record_stamp : SourceRecord → Stamp
record_stamp r = (r.created_at, r.id)

unfoldable pub claim_stamp : Claim → Stamp
claim_stamp c = (c.created_at, c.id)

abbrev pub record_le : SourceRecord → SourceRecord → Bool
record_le a b = stamp_leb (record_stamp a) (record_stamp b)

abbrev pub claim_le : Claim → Claim → Bool
claim_le a b = stamp_leb (claim_stamp a) (claim_stamp b)
