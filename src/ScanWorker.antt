-- ===== src/ScanWorker.antt =====
-- scan/ScanWorker.cpp: the background scan pipeline over the `receipts` table. `Queue` has the
-- claims, the reclaims and the failures, `Results` the check of a provider's result and its items,
-- `Write` the two ways to write one, and `Process` the whole scan of one claimed receipt.
pub mod Queue
pub mod Results
pub mod Write
pub mod Process
mod Tests
