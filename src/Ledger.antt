-- ===== src/Ledger.antt =====
-- src/tiller/ledger.py: the tables, each as a list of rows, and the operations on them. Every public
-- method is one transaction, so an operation is a function on the tables. Instants are microseconds.
pub mod Positions
pub mod Fills
pub mod Orders
pub mod Days
pub mod Tables
