-- ===== src/Collector/Frontier/Tests.antt =====
-- A small frontier: two links that are queued, and one address written two ways.
use civicpatch_tools.Prelude.{String, ◌≡◌, refl, [], ◌∷◌, string_eq, ◌==◌, if◌then◌else◌, some}
use civicpatch_tools.Collector.Frontier.{
  LinkStatus, LinkFrontier, new_link, next_pending, status_of, from_urls, add_front, dequeue,
  requeue, mark_status,
}
use civicpatch_tools.Collector.Frontier.Sync.{InSync}
use civicpatch_tools.Collector.Frontier.Changes.{from_urls-InSync, dequeue-not_InSync}

-- A host and its root page are one address.
abbrev canonical : String → String
canonical url = if url == "a.gov/" then "a.gov" else url

abbrev verbatim : String → String
verbatim url = url

abbrev seeded : LinkFrontier
seeded = from_urls canonical verbatim ("a.gov/" ∷ "b.gov" ∷ "a.gov" ∷ [])

seeded-queue : seeded.queue ≡ "a.gov" ∷ "b.gov" ∷ []
unfolding from_urls
seeded-queue = refl

add_front-queue :
    (add_front canonical verbatim seeded ("c.gov" ∷ "b.gov" ∷ "d.gov" ∷ [])).queue
    ≡ "c.gov" ∷ "d.gov" ∷ "a.gov" ∷ "b.gov" ∷ []
unfolding from_urls add_front
add_front-queue = refl

requeue-queue :
    (requeue canonical seeded "a.gov/" (λ l. record l { attempts = 1 })).queue
    ≡ "b.gov" ∷ "a.gov" ∷ []
unfolding from_urls requeue
requeue-queue = refl

next_pending-seeded : next_pending seeded ≡ some (new_link "a.gov/")
unfolding from_urls next_pending
next_pending-seeded = refl

status_of-done :
    status_of canonical (mark_status canonical seeded "b.gov" LinkStatus.done (λ l. l)) "b.gov"
    ≡ some LinkStatus.done
unfolding from_urls mark_status status_of
status_of-done = refl

seeded-InSync : InSync seeded
seeded-InSync = from_urls-InSync canonical verbatim ("a.gov/" ∷ "b.gov" ∷ "a.gov" ∷ [])

dequeue-not_InSync_example : ¬ InSync (dequeue canonical seeded "a.gov/")
unfolding from_urls
dequeue-not_InSync_example =
    dequeue-not_InSync canonical seeded "a.gov/" seeded-InSync (new_link "a.gov/", refl, refl)
