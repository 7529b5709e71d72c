-- ===== src/Collector.antt =====
-- pipelines/src/runners/pipeline03_people_collector: the people collector, its crawl and its
-- transitions.
pub mod Frontier
pub mod Scrape
pub mod Discovery
pub mod Crawl
pub mod Progress
pub mod Graph
pub mod Handlers
