-- ===== src/Projection/People/Tests.antt =====
-- A person whom a page lists in one post and a human put in another.
use civicpatch_tools.Prelude.{String, ◌≡◌, some, List, [], ◌∷◌, map}
use civicpatch_tools.Prelude.Sort.{sorted}
use civicpatch_tools.Projection.Facts.{PostKey}
use civicpatch_tools.Projection.History.{Person}
use civicpatch_tools.Projection.People.{derive_person, active_posts, own_by_post, post_le}
use civicpatch_tools.Projection.People.Spoken.{Keeps}
use civicpatch_tools.Projection.People.Collapse.{in_organization}
use civicpatch_tools.Projection.People.Derived.{HasLastRead, derive_person-returns}
use civicpatch_tools.Projection.Town.{shared, taxonomy, facts}

derive_person-returns_example :
    (person : Person) × (kept : List PostKey) × (derive_person shared taxonomy "ann"
        ("ann" ∷ [])
        facts
      ≡ some person)
    × (person.id ≡ "ann")
    × (map (λ m. m.post) person.memberships ≡ sorted (post_le shared) kept)
    × ((o : String)
        → Keeps
            ("ann" ∷ [])
            (own_by_post shared taxonomy ("ann" ∷ []) facts)
            facts
            (in_organization o (active_posts shared taxonomy ("ann" ∷ []) facts))
            (in_organization o kept))
    × ((p : PostKey) → HasLastRead shared taxonomy ("ann" ∷ []) facts p)
derive_person-returns_example = derive_person-returns shared taxonomy ("ann" ∷ []) facts "ann"
