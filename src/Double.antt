-- ===== src/Double.antt =====
-- The `double` of the sources: what the program does with a floating-point number, as an interface
-- that every other module takes as an instance. Rounding, infinities and NaN belong to the
-- processor, so the operations are parameters; `Double/Fixed.antt` is one concrete choice.
mod Defs
mod Order
pub mod Fixed
pub use Defs.*
pub use Order.*
