-- ===== src/Container.antt =====
-- util/include: the containers of the kernel and of user programs.
pub mod LinkedList
pub mod HashSet
