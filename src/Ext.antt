-- ===== src/Ext.antt =====
-- pkg/ext: the standard library of filters, in part.
pub mod Escape
