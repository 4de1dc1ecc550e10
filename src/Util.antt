-- ===== src/Util.antt =====
-- src/uvw/util.h and util.ipp: what uvw adds to the utilities of libuv.
pub mod Text
pub mod HandleType
pub mod Address
pub mod Os
pub mod Getters
pub mod System
pub mod Arrays
