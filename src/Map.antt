-- ===== src/Map.antt =====
-- `Map` of utils/include/utils/map.h over `MapData` of utils/include/utils/map_node.h. The tree is its
-- shape; a pointer to a node is the node's key, which no other node of the tree has, and null is no
-- key, which is also `end()`. The functions of the red-black tree itself are a parameter.
pub mod Lists
pub mod Lookups
pub mod Tree
pub mod Data
pub mod Contents
pub mod Erase
pub mod Sharing
pub mod Copying
pub mod Copies
pub mod Vines
mod Tests
