-- ===== src/External.antt =====
-- What the services call and this repository does not contain: the Redis server and the databases,
-- each as operations with the documented behaviour that the proofs use.
pub mod Sets
pub mod Cache
pub mod Table
pub mod Crypto
pub mod SortedSets
pub mod Hashes
pub mod Counters
pub mod Lists
pub mod Memory
