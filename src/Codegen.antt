-- ===== src/Codegen.antt =====
-- src/libhttp/codegen/: the generator of the parser of methods.
pub mod Branchify
pub mod ReadMethod
