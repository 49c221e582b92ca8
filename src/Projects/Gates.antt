-- ===== src/Projects/Gates.antt =====
-- projects/project2: parent.c keeps a child, child.c, for every gate of its prompt. The kernel's part is the
-- table of the children that it has not yet given back, and the parameter `fresh`, the answers of fork. A
-- child that is stopped is taken to go on where it was. What the two programs print is left out, but for the
-- states of the gates.
pub mod Child
pub mod Signals
pub mod Keeper
pub mod Table
pub mod Posts
