-- ===== src/Receipts.antt =====
-- receipts/ReceiptService.cpp and ReceiptService.h: receipts, their images, and manual entry.
pub mod Reads
pub mod Images
pub mod Edits
mod Tests
