-- ===== src/Domain.antt =====
-- internal/domain: the city graph, drivers, orders and the names of events. Identifiers are Go
-- strings. `Driver.Status` and `Order.Status` hold only the constants of the source.
pub mod Defs
pub mod City
