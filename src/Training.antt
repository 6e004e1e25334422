-- ===== src/Training.antt =====
-- One policy update over a closed window: trainer/grfpo/spooled_trainer.py with the training receipt of
-- trainer/grfpo/collection_store.py.
pub mod Update
pub mod Receipt
mod Examples
