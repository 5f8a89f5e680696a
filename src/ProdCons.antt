-- ===== src/ProdCons.antt =====
-- lab05-producer-consumer: the shared data of the four producer/consumer programs, the random
-- transaction, and the programs' threads in child modules.
pub mod Many
pub mod Plain
mod Transaction
unfoldable pub use Transaction.{max_transaction, perform_random_transaction}
