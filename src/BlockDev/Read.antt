-- ===== src/BlockDev/Read.antt =====
pub mod Stages
pub mod Middle
pub mod Last
pub mod Bytes
pub mod Confined
