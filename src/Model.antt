-- ===== src/Model.antt =====
-- include/klstream/model/isolation_forest.hpp: trees that part random samples of points, and the score
-- of a point by the paths that it takes through them.
pub mod Random
pub mod Tree
pub mod Forest
mod Tests
