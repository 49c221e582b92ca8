-- ===== src/Lunix.antt =====
-- The Lunix:TNG kernel module (OSLab/lunix/lunix).
pub mod Sensors
pub mod Protocol
pub mod Ldisc
pub mod Module
pub mod Chrdev
