-- ===== src/Python.antt =====
-- What the modelled code takes from Python itself: dynamic values, exceptions, results.
pub mod Json
pub mod Result
pub mod Text
pub mod Dict
pub mod Stateful
pub mod Values
pub mod Builtins
pub mod Operations
pub mod Dynamic
