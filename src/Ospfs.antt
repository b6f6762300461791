-- ===== src/Ospfs.antt =====
-- lab3: the OSPFS file system module, lab3/ospfsmod.c over the disk format of lab3/ospfs.h.
pub mod Layout
pub mod Bitmap
pub mod Index
pub mod Size
pub mod Bytes
pub mod Dir
pub mod Links
pub mod Files
pub mod Readdir
