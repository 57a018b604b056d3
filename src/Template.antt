-- ===== src/Template.antt =====
-- pkg/template: template resources, the processors that run them, and template functions.
pub mod Resource
pub mod Processor
pub mod Functions
