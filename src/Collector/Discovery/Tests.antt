-- ===== src/Collector/Discovery/Tests.antt =====
-- A page names a link that is known, one that is new and one that is blacklisted.
use civicpatch_tools.Prelude.{
  String, ◌≡◌, ◌==◌, ◌↔◌, ◌⊎◌, true, [], ◌∷◌, some, none, Has, leb, string_eq,
}
use civicpatch_tools.Prelude.Dict.{get, keys}
use civicpatch_tools.Collector.Frontier.{Link, LinkFrontier, from_urls}
use civicpatch_tools.Collector.Discovery.{Rules, add_relevant_urls}
use civicpatch_tools.Collector.Discovery.Found.{IsFound, IsKept, add_relevant_urls_lem}

abbrev same_url : String → String
same_url url = url

abbrev rules : Rules
rules = record {
  in_domain = λ url. true;
  is_blacklisted = λ url. url == "login";
  comment_of = λ url link_url. none;
  text_of = λ url link_url. none;
  precedes = λ a b. leb a.num_references b.num_references;
}

abbrev known : LinkFrontier
known = from_urls same_url same_url ("council" ∷ [])

abbrev found : LinkFrontier
found = add_relevant_urls same_url same_url rules known ("council" ∷ "login" ∷ "mayor" ∷ [])

add_relevant_urls_lem_example :
    (Has "council" (keys found.links) ↔ (
      IsFound same_url same_url rules ("council" ∷ "login" ∷ "mayor" ∷ []) "council"
      ⊎ Has "council" (keys known.links)))
    × ((l : Link) → get "council" known.links ≡ some l → IsKept l (get "council" found.links))
add_relevant_urls_lem_example =
    add_relevant_urls_lem same_url same_url rules known ("council" ∷ "login" ∷ "mayor" ∷ [])
      "council"
