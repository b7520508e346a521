-- ===== src/Route.antt =====
-- internal/route: the admission of a pair of a harness and a model, and the rules of the harness register.
pub mod Admit
pub mod Register
pub mod Order
pub mod Allowed
