-- ===== src/Projection/Rebuilds/Tests.antt =====
-- Two loads of one town's facts, in another order.
use civicpatch_tools.Prelude.{string_eq}
